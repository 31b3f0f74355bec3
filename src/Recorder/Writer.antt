-- ===== src/Recorder/Writer.antt =====
-- recorder.py: `AtomicJsonlWriter`, over the lines of the file. Whether the loop of `os.write` calls
-- and the `fsync` succeeded is an argument, and after a failure the roll-back is taken to succeed:
-- `Recorder.Writer.Append` has that loop on the bytes, and the roll-back whether it succeeds or not.
pub mod Append
pub mod Chain
pub mod Session
use smart_market_data_gatewa.Prelude.{
  ℕ, ◌+◌, Bool, true, false, ◌||◌, not, is_some, if◌then◌else◌, Option, none, some, List, [], ◌∷◌,
  ◌++◌,
}
use smart_market_data_gatewa.Prelude.Outcome.{
  Outcome, ok, raised, value_error, runtime_error, os_error, refuse_if, ◌>>=◌, ◌>>◌,
}
use smart_market_data_gatewa.Recorder.Text.{Text, Value, text, num, Object, is_blank, set}
use smart_market_data_gatewa.Recorder.Ledger

pub record Writer : Type 0 where
  pub session_id : Text
  pub is_open : Bool
  pub next_ledger_index : ℕ
  pub previous_record_hash : Text

-- `__init__`, given the session id that the caller or `uuid4` chose.
pub init : Text → Outcome Writer
init session_id = do
  refuse_if (is_blank session_id) value_error
  ok (record {
    session_id = session_id;
    is_open = false;
    next_ledger_index = 0;
    previous_record_hash = Ledger.genesis_hash;
  })

abbrev pub created : Option Ledger.LedgerFile → Ledger.LedgerFile
created none = record { lines = []; terminated = true }
created (some file) = file

-- `__enter__`: opening creates a missing file.
unfoldable pub enter :
    Ledger.Sha → Writer → Option Ledger.LedgerFile → Outcome (Writer × Ledger.LedgerFile)
enter sha w file = do
  verification ← Ledger.verify_jsonl_ledger sha false (some (created file))
  ok (
    record w {
      is_open = true;
      next_ledger_index = verification.expected_index;
      previous_record_hash = verification.expected_previous_hash;
    },
    created file,
  )

-- `RESERVED_LEDGER_FIELDS.intersection(record)` is not empty.
unfoldable pub conflicting : Object → Bool
conflicting fields =
    is_some (fields Ledger.ledger_version)
    || (is_some (fields Ledger.ledger_algorithm)
        || (is_some (fields Ledger.ledger_index)
            || (is_some (fields Ledger.previous_record_hash)
                || (is_some (fields Ledger.record_hash)
                    || (is_some (fields Ledger.recorder_session_id)
                        || (is_some (fields Ledger.provenance_system)
                            || (is_some (fields Ledger.provenance_component)
                                || is_some (fields Ledger.provenance_transport))))))))

-- The record with its ledger fields, but for its own hash.
unfoldable pub chained : Writer → Object → Object
chained w fields =
    let o1 = set fields Ledger.ledger_version (text Ledger.version_text) in
    let o2 = set o1 Ledger.ledger_algorithm (text Ledger.algorithm_text) in
    let o3 = set o2 Ledger.ledger_index (num w.next_ledger_index) in
    let o4 = set o3 Ledger.previous_record_hash (text w.previous_record_hash) in
    let o5 = set o4 Ledger.recorder_session_id (text w.session_id) in
    let o6 = set o5 Ledger.provenance_system (text Ledger.system_text) in
    let o7 = set o6 Ledger.provenance_component (text Ledger.component_text) in
    set o7 Ledger.provenance_transport (text Ledger.transport_text)

abbrev pub hashed : Ledger.Sha → Object → Object
hashed sha o = set o Ledger.record_hash (text (Ledger.compute_record_hash sha o))

unfoldable pub write :
    Ledger.Sha
    → Writer
    → Ledger.LedgerFile
    → Object
    → Bool
    → Outcome (Writer × Ledger.LedgerFile × Object)
write sha w file fields appended = do
  refuse_if (not w.is_open) runtime_error
  refuse_if (conflicting fields) value_error
  let ledger_record = hashed sha (chained w fields)
  refuse_if (not appended) os_error
  ok (
    record w {
      next_ledger_index = w.next_ledger_index + 1;
      previous_record_hash = Ledger.compute_record_hash sha (chained w fields);
    },
    record { lines = file.lines ++ Ledger.object ledger_record ∷ []; terminated = true },
    ledger_record,
  )

pub close : Writer → Writer
close w = record w { is_open = false }
