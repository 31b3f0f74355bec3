-- ===== src/Providers/Coinbase/State.antt =====
-- providers/coinbase.py: the state of `CoinbaseResearchMarketDataProvider` with its diagnostics.
-- Left out of the diagnostics: times and gaps, the depth of the queue, and the counts of rejected
-- messages by the names of their exceptions.
use smart_market_data_gatewa.Prelude.{ℕ, ◌+◌, Bool, Option, none, List, []}
use smart_market_data_gatewa.Prelude.Text.{Text}
use smart_market_data_gatewa.Prelude.TextDict.{TextDict, or_default, find, assign}
use smart_market_data_gatewa.Prelude.Outcome.{Error}
use smart_market_data_gatewa.Domain.Quote.{QuoteEvent}
use smart_market_data_gatewa.Providers.Coinbase.Projector.{Projector}

pub data ProviderState : Type 0 where
  disconnected connecting connected degraded : ProviderState

-- The message of a provider's health.
pub data Trouble : Type 0 where
  no_upstream_message upstream_ended : Trouble
  connection_failed reader_failed : Error → Trouble

pub data FinalState : Type 0 where
  never_started stalled ended reader_cancelled failed : FinalState

pub record Diagnostics : Type 0 where
  pub raw_messages_received_total : ℕ
  pub raw_messages_by_channel : TextDict ℕ
  pub projected_quote_events_total : ℕ
  pub rejected_messages_total : ℕ
  pub subscription_acknowledgements : TextDict ℕ
  pub reader_final_state : FinalState
  pub reader_final_error_type : Option Error
  pub provider_state : ProviderState
  pub provider_message : Option Trouble

abbrev pub reset : Diagnostics
reset = record {
  raw_messages_received_total = 0;
  raw_messages_by_channel = [];
  projected_quote_events_total = 0;
  rejected_messages_total = 0;
  subscription_acknowledgements = [];
  reader_final_state = never_started;
  reader_final_error_type = none;
  provider_state = disconnected;
  provider_message = none;
}

-- `d[k] = d.get(k, 0) + 1`
abbrev pub incremented : TextDict ℕ → Text → TextDict ℕ
incremented d k = assign d k (or_default (find d k) 0 + 1)

unfoldable pub record_raw_message : Text → Diagnostics → Diagnostics
record_raw_message channel d = record d {
  raw_messages_received_total = d.raw_messages_received_total + 1;
  raw_messages_by_channel = incremented d.raw_messages_by_channel channel;
}

unfoldable pub record_projected_event : Diagnostics → Diagnostics
record_projected_event d = record d {
  projected_quote_events_total = d.projected_quote_events_total + 1;
}

unfoldable pub record_rejected : Diagnostics → Diagnostics
record_rejected d = record d { rejected_messages_total = d.rejected_messages_total + 1 }

unfoldable pub record_subscription_acknowledgement : Text → Diagnostics → Diagnostics
record_subscription_acknowledgement channel d = record d {
  subscription_acknowledgements = incremented d.subscription_acknowledgements channel;
}

unfoldable pub finalize_reader : FinalState → Option Error → Diagnostics → Diagnostics
finalize_reader state error_type d = record d {
  reader_final_state = state;
  reader_final_error_type = error_type;
}

-- A message to Coinbase: whether it subscribes or unsubscribes, the channel, and the symbols.
pub record Request : Type 0 where
  pub subscribing : Bool
  pub channel : Text
  pub product_ids : List Text

-- The queue is what waits for `events`; a full queue makes the reader wait, and loses nothing.
pub record Session : Type 0 where
  pub state : ProviderState
  pub message : Option Trouble
  pub symbols : List Text
  pub queue : List QuoteEvent
  pub projector : Projector
  -- whether `_connection` is set, and whether `_reader_task` runs
  pub connection : Bool
  pub reading : Bool
  pub heartbeats_subscribed : Bool
  pub acknowledged_channels : List Text
  pub all_acknowledged : Bool
  pub diagnostics : Diagnostics
  pub requests : List Request

-- `_sync_diagnostics_state`
abbrev pub sync_diagnostics_state : Session → Session
sync_diagnostics_state s = record s {
  diagnostics = record s.diagnostics { provider_state = s.state; provider_message = s.message };
}
