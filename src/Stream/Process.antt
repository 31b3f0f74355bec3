-- ===== src/Stream/Process.antt =====
-- pipeline.py: `QuoteProcessor._process_one` and `_handle_failure`, on one entry of the stream of
-- quotes. The JSON parser is the form of the payload: absent, no event, or the fields of an event.
pub mod Replay
pub mod Poison
use smart_market_data_gatewa.Prelude.{ℕ, Bool, true, false, leb, if◌then◌else◌, Option, none, some}
use smart_market_data_gatewa.Prelude.Outcome.{Outcome, ok, raised, key_error, value_error}
use smart_market_data_gatewa.Domain.Quote.{QuoteEvent, validate_market}
use smart_market_data_gatewa.Stream.Redis.{
  Redis, GapObservation, dedupe, retry, health, mark, degraded,
}
use smart_market_data_gatewa.Stream.Cache.{Settings, cache_quote}
use smart_market_data_gatewa.Stream.Sequence.{observe_sequence}

pub data Payload : Type 0 where
  missing malformed : Payload
  event : QuoteEvent → Payload

-- `fields["payload"]` and `QuoteEvent.model_validate_json`
unfoldable pub decode : Payload → Outcome QuoteEvent
decode missing = raised key_error
decode malformed = raised value_error
decode (event e) = validate_market e

module _ {S : Type 0} (r : Redis S) (rivals : ℕ → S → S × Bool) (settings : Settings) where
  unfoldable pub handle_failure : ℕ → S → S
  handle_failure stream_id s =
      let s1 = r.incr s (retry stream_id) in
      if leb settings.retry_limit s1.1
      then r.xack (r.dead_letter s1.0 stream_id s1.1) stream_id
      else s1.0

  -- The state of the stream's health, written if there is something to report.
  abbrev pub with_health : QuoteEvent → S → Option GapObservation → S
  with_health e s none = s
  with_health e s (some g) = r.set s (health e.provider e.symbol) (degraded g)

  abbrev pub fanned_out : ℕ → QuoteEvent → S × Outcome (Unit {0}) → S × Outcome (Unit {0})
  fanned_out stream_id e (s, raised x) = (s, raised x)
  fanned_out stream_id e (s, ok u) = (r.xack (r.publish s e) stream_id, ok tt)

  abbrev pub cached :
      ℕ → QuoteEvent → ℕ → S × Outcome (Option GapObservation) → S × Outcome (Unit {0})
  cached stream_id e now (s, raised x) = (s, raised x)
  cached stream_id e now (s, ok o) =
      fanned_out stream_id e (cache_quote r rivals settings e now (with_health e s o))

  -- Past `accept_event_once`, whose answer is whether the id is new.
  abbrev pub accepted : ℕ → QuoteEvent → ℕ → S × Bool → S × Outcome (Unit {0})
  accepted stream_id e now (s, false) = (r.xack s stream_id, ok tt)
  accepted stream_id e now (s, true) = cached stream_id e now (observe_sequence r s e)

  abbrev pub tried : ℕ → ℕ → S → Outcome QuoteEvent → S × Outcome (Unit {0})
  tried stream_id now s (raised x) = (s, raised x)
  tried stream_id now s (ok e) = accepted stream_id e now (r.set_nx s (dedupe e.event_id) mark)

  abbrev pub settled : ℕ → S × Outcome (Unit {0}) → S
  settled stream_id (s, ok u) = s
  settled stream_id (s, raised x) = handle_failure stream_id s

  unfoldable pub process_one : ℕ → Payload → ℕ → S → S
  process_one stream_id payload now s = settled stream_id (tried stream_id now s (decode payload))
