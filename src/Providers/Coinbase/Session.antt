-- ===== src/Providers/Coinbase/Session.antt =====
-- providers/coinbase.py: `CoinbaseResearchConfig` and the methods of
-- `CoinbaseResearchMarketDataProvider`. The reader's loop is a step for each answer of the
-- connection. What the calls of the websocket client answer is a parameter.
pub mod Sound
pub mod Reading
pub mod Nan
use smart_market_data_gatewa.Prelude.{
  ℕ, ◌+◌, Bool, true, false, ◌&&◌, ◌||◌, not, ◌==◌, if◌then◌else◌, Option, none, some, List, [],
  ◌∷◌, ◌++◌,
}
use smart_market_data_gatewa.Prelude.Text.{
  Text, text_eq, upper, lower, sorted_texts, has_text, add_text, discard_text,
}
use smart_market_data_gatewa.Prelude.Outcome.{
  Outcome, Error, ok, raised, value_error, key_error, runtime_error, os_error, arithmetic_error,
  cancelled, ◌>>=◌, ◌>>◌, refuse_if,
}
use smart_market_data_gatewa.Domain.Quote.{QuoteEvent}
use smart_market_data_gatewa.Providers.Coinbase.Json.{
  Json, null, string, scalar, array, object, Fields, get_or, Python, str, strip,
}
use smart_market_data_gatewa.Providers.Coinbase.Values.{symbol_of}
use smart_market_data_gatewa.Providers.Coinbase.Names
use smart_market_data_gatewa.Providers.Coinbase.Projector.{
  given, after, apply, channel_of, clear_connection_state,
}
use smart_market_data_gatewa.Providers.Coinbase.State.{
  ProviderState, disconnected, connecting, connected, degraded, no_upstream_message, upstream_ended,
  connection_failed, reader_failed, stalled, ended, reader_cancelled, failed, reset,
  record_raw_message, record_projected_event, record_rejected, finalize_reader, Trouble, FinalState,
  Session, Request, sync_diagnostics_state,
}
use smart_market_data_gatewa.Providers.Coinbase.Acknowledged.{
  required_channels, all_in, sync_ack_event, record_subscription_acknowledgements,
}

pub record Config : Type 0 where
  pub url : Text
  pub use_mode : Text
  pub market_data_terms_accepted : Bool
  pub environment : Text
  pub queue_size : ℕ
  pub message_idle_timeout : ℕ

abbrev starts_with : Text → Text → Bool
starts_with [] t = true
starts_with (c ∷ s) [] = false
starts_with (c ∷ s) (d ∷ t) = (c == d) && starts_with s t

-- `__post_init__`, for "wss://" and "ws://".
unfoldable pub post_init : Config → Outcome (Unit {0})
post_init c = do
  refuse_if
      (not (
        starts_with (119 ∷ 115 ∷ 115 ∷ 58 ∷ 47 ∷ 47 ∷ []) c.url
        || starts_with (119 ∷ 115 ∷ 58 ∷ 47 ∷ 47 ∷ []) c.url))
      value_error
  refuse_if (c.queue_size == 0) value_error
  refuse_if (c.message_idle_timeout == 0) value_error
  ok tt

-- CoinbaseUsageError is a PermissionError, thus an OSError.
unfoldable pub validate_usage : Config → Outcome (Unit {0})
validate_usage c = do
  refuse_if (not (text_eq c.use_mode Names.personal_research)) os_error
  refuse_if (not c.market_data_terms_accepted) os_error
  refuse_if (text_eq (lower (strip c.environment)) Names.production) os_error
  ok tt

-- What `recv` and `json.loads` answer: no message in time, the end of the connection, another
-- exception, a message that is no JSON, or its value.
pub data Frame : Type 0 where
  silence closed garbled : Frame
  broken : Error → Frame
  frame : Json → Frame

abbrev pub finished : FinalState → Option Error → Option Trouble → Session → Session
finished state error_type message s = sync_diagnostics_state (record s {
  diagnostics = finalize_reader state error_type s.diagnostics;
  state = degraded;
  message = message;
  reading = false;
})

-- The end of the reader by an exception.
abbrev pub reader_ends : Error → Session → Session
reader_ends cancelled s = record s {
  diagnostics = finalize_reader reader_cancelled none s.diagnostics;
  reading = false;
}
reader_ends value_error s = finished failed (some value_error) (some (reader_failed value_error)) s
reader_ends key_error s = finished failed (some key_error) (some (reader_failed key_error)) s
reader_ends runtime_error s =
    finished failed (some runtime_error) (some (reader_failed runtime_error)) s
reader_ends os_error s = finished failed (some os_error) (some (reader_failed os_error)) s
reader_ends arithmetic_error s =
    finished failed (some arithmetic_error) (some (reader_failed arithmetic_error)) s

abbrev pub rejected : Session → Session
rejected s = record s { diagnostics = record_rejected s.diagnostics }

-- A ValueError rejects the message; the reader goes on.
abbrev pub settled : Session × Outcome (Unit {0}) → Session
settled (s, ok u) = s
settled (s, raised value_error) = rejected s
settled (s, raised key_error) = reader_ends key_error s
settled (s, raised runtime_error) = reader_ends runtime_error s
settled (s, raised os_error) = reader_ends os_error s
settled (s, raised arithmetic_error) = reader_ends arithmetic_error s
settled (s, raised cancelled) = reader_ends cancelled s

abbrev pub received : Text → Session → Session
received channel s = record s { diagnostics = record_raw_message channel s.diagnostics }

abbrev pub or_unknown : Text → Text
or_unknown [] = Names.unknown
or_unknown (c ∷ t) = c ∷ t

module _ (py : Python) where
  -- `event.symbol in self._symbols`
  unfoldable pub wanted : List Text → QuoteEvent → Bool
  wanted [] e = false
  wanted (s ∷ ss) e = (py.code s == e.symbol) || wanted ss e

  unfoldable pub deliver : List QuoteEvent → Session → Session
  deliver [] s = s
  deliver (e ∷ es) s = deliver es (
      if wanted s.symbols e
      then record s {
        queue = s.queue ++ e ∷ [];
        diagnostics = record_projected_event s.diagnostics;
      }
      else s)

  abbrev pub acknowledge : Text → Fields → Session → Session × Outcome (Unit {0})
  acknowledge channel payload s =
      if text_eq channel Names.subscriptions
      then record_subscription_acknowledgements py payload s
      else (s, ok tt)

  unfoldable pub project : Fields → ℕ → Session → Session × Outcome (Unit {0})
  project payload at s =
      let r = apply py payload at s.projector in
      given (record s { projector = r.0 }) r.1
        λ es. (deliver es (record s { projector = r.0 }), ok tt)

  -- The stripped channel of a payload, or "unknown".
  abbrev pub raw_channel : Fields → Text
  raw_channel payload = or_unknown (strip (channel_of py payload))

  unfoldable pub read_payload : Fields → ℕ → Session → Session
  read_payload payload at s = settled (
      after (acknowledge (raw_channel payload) payload (received (raw_channel payload) s))
        λ t u. project payload at t)

  unfoldable pub read_frame : Frame → ℕ → Session → Session
  read_frame silence at s = finished stalled none (some no_upstream_message) s
  read_frame closed at s = finished ended none (some upstream_ended) s
  read_frame garbled at s = rejected (received Names.unparsed s)
  read_frame (broken e) at s = reader_ends e s
  read_frame (frame (object payload)) at s = read_payload payload at s
  read_frame (frame null) at s = rejected (received Names.unparsed s)
  read_frame (frame (scalar truth t)) at s = rejected (received Names.unparsed s)
  read_frame (frame (string t)) at s = rejected (received Names.unparsed s)
  read_frame (frame (array items)) at s = rejected (received Names.unparsed s)

  -- A round of `_reader_loop`, while its task runs.
  unfoldable pub read : Frame → ℕ → Session → Session
  read f at s = if s.reading then read_frame f at s else s
