-- ===== src/Recorder/Messages.antt =====
-- recorder.py: `QuoteMessageRecorder`. What the JSON parser and the validation of a message come to
-- is the form of the message; how a quote is dumped to JSON is a parameter.
pub mod Counts
pub mod Gaps
use smart_market_data_gatewa.Prelude.{
  ℕ, ◌+◌, ◌-◌, Bool, true, false, ltb, leb, if◌then◌else◌, Option, none, some, List, [], ◌∷◌,
}
use smart_market_data_gatewa.Prelude.Dict.{Dict, get, put}
use smart_market_data_gatewa.Prelude.Outcome.{
  Outcome, Error, ok, raised, value_error, key_error, runtime_error, os_error, arithmetic_error,
  cancelled,
}
use smart_market_data_gatewa.Domain.Quote.{QuoteEvent, validate_market}
use smart_market_data_gatewa.Recorder.Text.{Object}
use smart_market_data_gatewa.Recorder.Ledger.{Sha, LedgerFile}
use smart_market_data_gatewa.Recorder.Writer.{Writer, write}

pub record Counters : Type 0 where
  pub received : ℕ
  pub written : ℕ
  pub duplicates : ℕ
  pub gaps : ℕ
  pub malformed : ℕ
  pub dropped : ℕ

pub record MessageRecorder : Type 0 where
  pub counters : Counters
  pub last_sequence : Dict ℕ

-- A message: unreadable, of another type, a quote or a snapshot with its `stale` field, and of
-- these the ones whose quote is no object.
pub data Message : Type 0 where
  unreadable other_type no_quote : Message
  quote : QuoteEvent → Message
  snapshot : QuoteEvent → Bool → Message

pub record Metadata : Type 0 where
  pub from_snapshot : Bool
  pub stale : Bool

abbrev pub tagged : Metadata → Outcome QuoteEvent → Outcome (Option (QuoteEvent × Metadata))
tagged metadata (raised e) = raised e
tagged metadata (ok q) = ok (some (q, metadata))

-- `_quote_from_message`, with the reading of the message before it.
unfoldable pub quote_from_message : Message → Outcome (Option (QuoteEvent × Metadata))
quote_from_message unreadable = raised value_error
quote_from_message other_type = ok none
quote_from_message no_quote = raised value_error
quote_from_message (quote q) =
    tagged (record { from_snapshot = false; stale = false }) (validate_market q)
quote_from_message (snapshot q stale) =
    tagged (record { from_snapshot = true; stale = stale }) (validate_market q)

pub record SequenceMetadata : Type 0 where
  pub degraded_stream : Bool
  pub sequence_gap : Bool
  pub gap_size : ℕ

abbrev pub of_gap : ℕ → SequenceMetadata
of_gap gap_size = record {
  degraded_stream = ltb 0 gap_size;
  sequence_gap = ltb 0 gap_size;
  gap_size = gap_size;
}

-- The recorder past a number that is new, with the gap before it.
abbrev pub advanced : MessageRecorder → ℕ → ℕ → ℕ → MessageRecorder × Option SequenceMetadata
advanced m symbol n gap_size = (
  record {
    counters = record m.counters {
      gaps = if ltb 0 gap_size then m.counters.gaps + 1 else m.counters.gaps;
    };
    last_sequence = put m.last_sequence symbol n;
  },
  some (of_gap gap_size),
)

abbrev pub duplicate : MessageRecorder → MessageRecorder × Option SequenceMetadata
duplicate m =
    (record m { counters = record m.counters { duplicates = m.counters.duplicates + 1 } }, none)

abbrev pub numbered : MessageRecorder → ℕ → ℕ → Option ℕ → MessageRecorder × Option SequenceMetadata
numbered m symbol n none = advanced m symbol n 0
numbered m symbol n (some previous) =
    if leb n previous then duplicate m else advanced m symbol n (n - previous - 1)

abbrev pub metadata_of : MessageRecorder → ℕ → Option ℕ → MessageRecorder × Option SequenceMetadata
metadata_of m symbol none = (m, some (of_gap 0))
metadata_of m symbol (some n) = numbered m symbol n (get m.last_sequence symbol)

unfoldable pub sequence_metadata :
    MessageRecorder → QuoteEvent → MessageRecorder × Option SequenceMetadata
sequence_metadata m q = metadata_of m q.symbol q.sequence

-- A sequence of quotes, with what is found for each.
unfoldable pub metadata_all :
    MessageRecorder → List QuoteEvent → MessageRecorder × List (Option SequenceMetadata)
metadata_all m [] = (m, [])
metadata_all m (q ∷ qs) =
    let (m', found) = sequence_metadata m q in
    let (m'', rest) = metadata_all m' qs in (m'', found ∷ rest)

-- The whole state: the recorder, its writer, and the file.
pub record State : Type 0 where
  pub recorder : MessageRecorder
  pub writer : Writer
  pub file : LedgerFile

abbrev pub counted : State → Counters → State
counted s c = record s { recorder = record s.recorder { counters = c } }

-- How `handle` ends when the writer has answered.
abbrev pub recorded : State → Outcome (Writer × LedgerFile × Object) → State × Outcome Bool
recorded s (ok (w, file, o)) = (
  record {
    recorder = record s.recorder {
      counters = record s.recorder.counters { written = s.recorder.counters.written + 1 };
    };
    writer = w;
    file = file;
  },
  ok true,
)
recorded s (raised os_error) = (
  counted s (record s.recorder.counters { dropped = s.recorder.counters.dropped + 1 }),
  raised os_error,
)
recorded s (raised value_error) = (s, raised value_error)
recorded s (raised key_error) = (s, raised key_error)
recorded s (raised runtime_error) = (s, raised runtime_error)
recorded s (raised arithmetic_error) = (s, raised arithmetic_error)
recorded s (raised cancelled) = (s, raised cancelled)

module _ (sha : Sha) (dump : QuoteEvent → Metadata → SequenceMetadata → Object) where
  abbrev pub sequenced :
      State
      → QuoteEvent
      → Metadata
      → Bool
      → MessageRecorder × Option SequenceMetadata
      → State × Outcome Bool
  sequenced s q metadata appended (m, none) = (record s { recorder = m }, ok false)
  sequenced s q metadata appended (m, some g) =
      recorded (record s { recorder = m }) (write sha s.writer s.file (dump q metadata g) appended)

  -- The read message, `TypeError` and the like being ValueErrors of the model.
  abbrev pub read : State → Bool → Outcome (Option (QuoteEvent × Metadata)) → State × Outcome Bool
  read s appended (raised e) = (
    counted s (record s.recorder.counters { malformed = s.recorder.counters.malformed + 1 }),
    ok false,
  )
  read s appended (ok none) = (s, ok false)
  read s appended (ok (some (q, metadata))) =
      sequenced s q metadata appended (sequence_metadata s.recorder q)

  unfoldable pub handle : State → Message → Bool → State × Outcome Bool
  handle s message appended =
      read (counted s (record s.recorder.counters { received = s.recorder.counters.received + 1 }))
        appended (quote_from_message message)
