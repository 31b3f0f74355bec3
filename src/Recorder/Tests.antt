-- ===== src/Recorder/Tests.antt =====
-- A ledger of one record, under a hash that is the same for all records.
use smart_market_data_gatewa.Prelude.{
  ◌+◌, length, ◌≡◌, ◌∙◌, sym, refl, ap, true, false, ◌==◌, if◌then◌else◌, none, some, [], ◌∷◌, ◌++◌,
}
use smart_market_data_gatewa.Recorder.Writer.{conflicting, Writer, chained, hashed, enter}
use smart_market_data_gatewa.Domain.Quote.Numbers.{numbers, largest}
use smart_market_data_gatewa.Recorder.Messages.Gaps.{skipped, flagged, metadata_all_lem}
use smart_market_data_gatewa.Recorder.Files.{Bytes, raw_lines, records, verify_file}
use smart_market_data_gatewa.Recorder.Files.Same.{verify_file-records}
use smart_market_data_gatewa.Prelude.Dict.{get, put}
use smart_market_data_gatewa.Domain.Quote.{QuoteEvent, sample}
use smart_market_data_gatewa.Recorder.Messages.{
  MessageRecorder, Metadata, SequenceMetadata, State, quote, sequence_metadata, metadata_all,
  handle,
}
use smart_market_data_gatewa.Recorder.Messages.Counts.{
  tally, HasLedger, handle-HasLedger, handle-IsCounted,
}
use smart_market_data_gatewa.Prelude.Outcome.{ok}
use smart_market_data_gatewa.Recorder.Text.{num, Object, pop, is_digest, is_blank, insert_text}
use smart_market_data_gatewa.Recorder.Ledger.{
  Sha, Line, broken, object, Progress, LedgerFile, genesis_hash, record_hash, start, verify_line,
  verify_lines, verify_jsonl_ledger, require_object, require_session, require_hash, check_constants,
}
use smart_market_data_gatewa.Recorder.Tamper.{NoCollision}
use smart_market_data_gatewa.Recorder.Writer.Append.{
  append, Appended, append_atomic, append_progress,
}
use smart_market_data_gatewa.Recorder.Writer.Chain.{IsLedger}
use smart_market_data_gatewa.Recorder.Writer.Session.{attempts, session-verifies}

constant_sha : Sha
unfolding genesis_hash is_digest
constant_sha = record { digest = λ o. genesis_hash; digest_form = λ o. refl }

-- A quote with one field.
abbrev fields : Object
fields = λ f. if f == 20 then some (num 7) else none

abbrev idle : Writer
idle = record {
  session_id = 115 ∷ [];
  is_open = false;
  next_ledger_index = 0;
  previous_record_hash = genesis_hash;
}

abbrev ready : Writer
ready = record idle { is_open = true }

abbrev no_file : LedgerFile
no_file = record { lines = []; terminated = true }

session_example :
    IsLedger constant_sha
      (attempts constant_sha (ready, no_file) ((fields, true) ∷ (fields, false) ∷ [])).0
      (attempts constant_sha (ready, no_file) ((fields, true) ∷ (fields, false) ∷ [])).1
unfolding enter verify_jsonl_ledger is_blank
session_example =
    session-verifies constant_sha idle ready none no_file ((fields, true) ∷ (fields, false) ∷ [])
      refl refl

abbrev line : Line
line = object (hashed constant_sha (chained idle fields))

abbrev one_record : Progress
one_record = record {
  expected_previous_hash = genesis_hash;
  expected_index = 1;
  session_ids = (115 ∷ []) ∷ [];
}

line_verifies : verify_line constant_sha start line ≡ ok one_record
unfolding verify_line require_object require_session require_hash check_constants chained
    constant_sha genesis_hash is_digest is_blank insert_text
line_verifies = refl

lines_verify : verify_lines constant_sha start (line ∷ []) ≡ ok one_record
unfolding verify_lines
lines_verify = rw line_verifies refl

alone : NoCollision constant_sha (line ∷ []) (line ∷ [])
unfolding NoCollision
alone = (λ a b p q h. ap (λ o. pop o record_hash) (same a b (sym p ∙ q)), tt)
  where
    same : (a b : Object) → object a ≡ object b → a ≡ b
    same a b e = cc

-- A parser that knows one line, the one that ends at a newline alone.
abbrev loads : Bytes → Line
loads [] = broken
loads (c ∷ cs) = if c == 10 then line else broken

file_verifies : verify_file loads constant_sha false (some (10 ∷ [])) ≡ ok one_record
unfolding verify_file verify_jsonl_ledger records raw_lines
file_verifies = lines_verify

two_records_example :
    (records loads (10 ∷ []) ≡ records loads (10 ∷ []))
    × (length (raw_lines (10 ∷ [])) ≡ length (raw_lines (10 ∷ [])))
unfolding raw_lines records
two_records_example =
    verify_file-records constant_sha loads false false one_record one_record (10 ∷ []) (10 ∷ [])
      alone file_verifies file_verifies refl refl

atomic_example :
    Appended false
      (1 ∷ 2 ∷ [])
      (7 ∷ 8 ∷ 9 ∷ [])
      (append (λ r. some 2) false false (1 ∷ 2 ∷ []) (7 ∷ 8 ∷ 9 ∷ []))
atomic_example = append_atomic (λ r. some 2) false false (1 ∷ 2 ∷ []) (7 ∷ 8 ∷ 9 ∷ [])

progress_example :
    append (λ r. some 2) true false (1 ∷ 2 ∷ []) (7 ∷ 8 ∷ 9 ∷ [])
    ≡ ((1 ∷ 2 ∷ []) ++ 7 ∷ 8 ∷ 9 ∷ [], true)
progress_example =
    append_progress (λ r. some 2) false (1 ∷ 2 ∷ []) (7 ∷ 8 ∷ 9 ∷ []) (λ r. (1, refl))

-- A recorder whose last number of symbol 3 is 3, and a quote numbered 5.
abbrev recorder : MessageRecorder
recorder = record {
  counters = record {
    received = 1;
    written = 1;
    duplicates = 0;
    gaps = 0;
    malformed = 0;
    dropped = 0;
  };
  last_sequence = (3, 3) ∷ [];
}

abbrev dump : QuoteEvent → Metadata → SequenceMetadata → Object
dump q md g = fields

abbrev state : State
state = record { recorder = recorder; writer = ready; file = no_file }

metadata_example :
    (get (metadata_all recorder (sample ∷ sample ∷ [])).0.last_sequence 3
      ≡ some (largest 3 (numbers (sample ∷ sample ∷ []))))
    × (largest 3 (numbers (sample ∷ sample ∷ []))
          + (metadata_all recorder (sample ∷ sample ∷ [])).0.counters.duplicates
        ≡ 3
          + 0
          + length (numbers (sample ∷ sample ∷ []))
          + skipped (metadata_all recorder (sample ∷ sample ∷ [])).1)
    × ((metadata_all recorder (sample ∷ sample ∷ [])).0.counters.gaps
        ≡ 0 + flagged (metadata_all recorder (sample ∷ sample ∷ [])).1)
unfolding get
metadata_example = metadata_all_lem recorder (sample ∷ sample ∷ []) 3 3 (refl, (refl, tt)) refl

-- Of the numbers 5 and 5 after 3, one is missing, and the second quote is a duplicate.
metadata_counts_example :
    ((metadata_all recorder (sample ∷ sample ∷ [])).0.counters.duplicates ≡ 1)
    × (skipped (metadata_all recorder (sample ∷ sample ∷ [])).1 ≡ 1)
    × (flagged (metadata_all recorder (sample ∷ sample ∷ [])).1 ≡ 1)
unfolding metadata_all sequence_metadata get put
metadata_counts_example = (refl, refl, refl)

ready-IsLedger : IsLedger constant_sha ready no_file
unfolding enter verify_jsonl_ledger is_blank attempts
ready-IsLedger = session-verifies constant_sha idle ready none no_file [] refl refl

handle_example : HasLedger constant_sha dump (handle constant_sha dump state (quote sample) true).0
handle_example = handle-HasLedger constant_sha dump state (quote sample) true ready-IsLedger

counted_example :
    (tally (handle constant_sha dump state (quote sample) true).0.recorder.counters
      ≡ tally state.recorder.counters + 1)
    × ((handle constant_sha dump state (quote sample) true).0.recorder.counters.received
        ≡ state.recorder.counters.received + 1)
unfolding conflicting
counted_example =
    handle-IsCounted constant_sha dump state (quote sample) true refl (λ q md g. refl) refl
