-- ===== src/Recorder/Files.antt =====
-- recorder.py: `verify_jsonl_ledger` on the bytes of the file. `json.loads` of a line is a parameter:
-- lines that differ in their spaces or in the order of their fields may be the same object.
pub mod Same
use smart_market_data_gatewa.Prelude.{
  ℕ, Bool, false, ◌==◌, if◌then◌else◌, Option, none, some, List, [], ◌∷◌, map,
}
use smart_market_data_gatewa.Prelude.Outcome.{Outcome}
use smart_market_data_gatewa.Recorder.Ledger.{Sha, Line, Progress, LedgerFile, verify_jsonl_ledger}

abbrev pub Bytes : Type 0
Bytes = List ℕ

abbrev in_front : ℕ → List Bytes → List Bytes
in_front c [] = (c ∷ []) ∷ []
in_front c (line ∷ lines) = (c ∷ line) ∷ lines

-- The lines of a file that is open in binary mode, each with the newline that ends it.
unfoldable pub raw_lines : Bytes → List Bytes
raw_lines [] = []
raw_lines (c ∷ cs) = let rest = raw_lines cs in if c == 10 then (c ∷ []) ∷ rest else in_front c rest

-- Whether the last byte is a newline.
abbrev pub is_terminated : Bytes → Bool
is_terminated [] = false
is_terminated (c ∷ []) = c == 10
is_terminated (c ∷ d ∷ cs) = is_terminated (d ∷ cs)

module _ (loads : Bytes → Line) where
  unfoldable pub records : Bytes → List Line
  records bytes = map loads (raw_lines bytes)

  abbrev pub parsed : Option Bytes → Option LedgerFile
  parsed none = none
  parsed (some bytes) = some (record { lines = records bytes; terminated = is_terminated bytes })

  unfoldable pub verify_file : Sha → Bool → Option Bytes → Outcome Progress
  verify_file sha allow_missing path = verify_jsonl_ledger sha allow_missing (parsed path)
