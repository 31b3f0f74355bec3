-- ===== src/Recorder/Ledger.antt =====
-- recorder.py: `compute_record_hash` and `verify_jsonl_ledger`, from the parsed lines on;
-- `Recorder.Files` has the bytes. SHA-256 over the canonical bytes is
-- a parameter; of it only the form of its digests is used.
-- Texts are taken to have an encoding in UTF-8, so to have no lone surrogates.
use smart_market_data_gatewa.Prelude.{
  ℕ, zero, suc, ◌+◌, ◌≡◌, Bool, true, not, if◌then◌else◌, Option, none, some, List, [], ◌∷◌,
}
use smart_market_data_gatewa.Prelude.Outcome.{
  Outcome, ok, raised, value_error, refuse_if, ◌>>=◌, ◌>>◌,
}
use smart_market_data_gatewa.Recorder.Text.{
  Text, Value, text, num, real, negative_zero, truth, other, Object, text_eq, is_text, is_num,
  is_blank, is_digest, pop, insert_text,
}

-- The field names of the ledger; other numbers name the fields of a quote.
abbrev pub ledger_version : ℕ
ledger_version = 0

abbrev pub ledger_algorithm : ℕ
ledger_algorithm = 1

abbrev pub ledger_index : ℕ
ledger_index = 2

abbrev pub previous_record_hash : ℕ
previous_record_hash = 3

abbrev pub record_hash : ℕ
record_hash = 4

abbrev pub recorder_session_id : ℕ
recorder_session_id = 5

abbrev pub provenance_system : ℕ
provenance_system = 6

abbrev pub provenance_component : ℕ
provenance_component = 7

abbrev pub provenance_transport : ℕ
provenance_transport = 8

-- "1.0"
abbrev pub version_text : Text
version_text = 49 ∷ 46 ∷ 48 ∷ []

-- "sha256"
abbrev pub algorithm_text : Text
algorithm_text = 115 ∷ 104 ∷ 97 ∷ 50 ∷ 53 ∷ 54 ∷ []

-- "smart-market-data-gateway"
abbrev pub system_text : Text
system_text =
    115 ∷ 109 ∷ 97 ∷ 114 ∷ 116 ∷ 45 ∷ 109 ∷ 97 ∷ 114 ∷ 107 ∷ 101 ∷ 116 ∷ 45 ∷ 100 ∷ 97 ∷ 116 ∷ 97
    ∷ 45 ∷ 103 ∷ 97 ∷ 116 ∷ 101 ∷ 119 ∷ 97 ∷ 121 ∷ []

-- "websocket-jsonl-recorder"
abbrev pub component_text : Text
component_text =
    119 ∷ 101 ∷ 98 ∷ 115 ∷ 111 ∷ 99 ∷ 107 ∷ 101 ∷ 116 ∷ 45 ∷ 106 ∷ 115 ∷ 111 ∷ 110 ∷ 108 ∷ 45 ∷ 114
    ∷ 101 ∷ 99 ∷ 111 ∷ 114 ∷ 100 ∷ 101 ∷ 114 ∷ []

-- "websocket"
abbrev pub transport_text : Text
transport_text = 119 ∷ 101 ∷ 98 ∷ 115 ∷ 111 ∷ 99 ∷ 107 ∷ 101 ∷ 116 ∷ []

-- "0" * 64
zeros : ℕ → Text
zeros zero = []
zeros (suc n) = 48 ∷ zeros n

unfoldable pub genesis_hash : Text
unfolding zeros
genesis_hash = zeros 64

-- SHA-256 of the canonical encoding, as a hexadecimal text.
pub record Sha : Type 0 where
  pub digest : Object → Text
  pub digest_form : (o : Object) → is_digest (digest o) ≡ true

abbrev pub compute_record_hash : Sha → Object → Text
compute_record_hash sha record_ = sha.digest (pop record_ record_hash)

-- A parsed line of the file: no JSON, JSON that is no object, or an object.
pub data Line : Type 0 where
  broken scalar : Line
  object : Object → Line

pub record Progress : Type 0 where
  pub expected_previous_hash : Text
  pub expected_index : ℕ
  pub session_ids : List Text

unfoldable pub require_object : Line → Outcome Object
require_object broken = raised value_error
require_object scalar = raised value_error
require_object (object payload) = ok payload

unfoldable pub require_session : Option Value → Outcome Text
require_session (some (text s)) = do refuse_if (is_blank s) value_error; ok s
require_session (some (num n)) = raised value_error
require_session (some (real n)) = raised value_error
require_session (some negative_zero) = raised value_error
require_session (some (truth b)) = raised value_error
require_session (some (other v)) = raised value_error
require_session none = raised value_error

unfoldable pub require_hash : Option Value → Outcome Text
require_hash (some (text s)) = do refuse_if (not (is_digest s)) value_error; ok s
require_hash (some (num n)) = raised value_error
require_hash (some (real n)) = raised value_error
require_hash (some negative_zero) = raised value_error
require_hash (some (truth b)) = raised value_error
require_hash (some (other v)) = raised value_error
require_hash none = raised value_error

-- The fields that are the same in every record, and the index.
unfoldable pub check_constants : Object → ℕ → Outcome (Unit {0})
check_constants payload index = do
  refuse_if (not (is_text (payload ledger_version) version_text)) value_error
  refuse_if (not (is_text (payload ledger_algorithm) algorithm_text)) value_error
  refuse_if (not (is_num (payload ledger_index) index)) value_error
  refuse_if (not (is_text (payload provenance_system) system_text)) value_error
  refuse_if (not (is_text (payload provenance_component) component_text)) value_error
  refuse_if (not (is_text (payload provenance_transport) transport_text)) value_error
  ok tt

unfoldable pub verify_line : Sha → Progress → Line → Outcome Progress
verify_line sha p line = do
  payload ← require_object line
  check_constants payload p.expected_index
  session_id ← require_session (payload recorder_session_id)
  previous_hash ← require_hash (payload previous_record_hash)
  refuse_if (not (text_eq previous_hash p.expected_previous_hash)) value_error
  stored_hash ← require_hash (payload record_hash)
  refuse_if (not (text_eq stored_hash (compute_record_hash sha payload))) value_error
  ok (record {
    expected_previous_hash = stored_hash;
    expected_index = p.expected_index + 1;
    session_ids = insert_text session_id p.session_ids;
  })

unfoldable pub verify_lines : Sha → Progress → List Line → Outcome Progress
verify_lines sha p [] = ok p
verify_lines sha p (line ∷ lines) = do next ← verify_line sha p line; verify_lines sha next lines

pub record LedgerFile : Type 0 where
  pub lines : List Line
  -- whether the last byte is a newline
  pub terminated : Bool

abbrev pub start : Progress
start = record { expected_previous_hash = genesis_hash; expected_index = 0; session_ids = [] }

abbrev pub verify_present : Sha → LedgerFile → Outcome Progress
verify_present sha file = do
  refuse_if (not file.terminated) value_error
  verify_lines sha start file.lines

-- A `LedgerVerification` is the progress at the end of the file: the records, the head hash and the
-- sessions. A file of no bytes has no lines.
abbrev pub verify_existing : Sha → LedgerFile → List Line → Outcome Progress
verify_existing sha file [] = ok start
verify_existing sha file (line ∷ lines) = verify_present sha file

unfoldable pub verify_jsonl_ledger : Sha → Bool → Option LedgerFile → Outcome Progress
verify_jsonl_ledger sha allow_missing none = if allow_missing then ok start else raised value_error
verify_jsonl_ledger sha allow_missing (some file) = verify_existing sha file file.lines
