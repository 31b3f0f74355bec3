-- ===== src/Domain/Quote.antt =====
-- domain/models.py: `QuoteEvent` and its model validator. A minor version stands for the schema
-- version "1.minor", and numbers for the symbol, the provider and the UUID of the event, in the
-- order of their texts. A decimal is a number of some fixed unit.
pub mod Numbers
pub mod Consistency
use smart_market_data_gatewa.Prelude.{
  ℕ, ◌+◌, Bool, true, false, ◌&&◌, ◌||◌, not, Option, none, some, is_some, ltb, ◌==◌, if◌then◌else◌,
}
use smart_market_data_gatewa.Prelude.Outcome.{
  Outcome, ok, raised, value_error, refuse_if, ◌>>=◌, ◌>>◌,
}
use smart_market_data_gatewa.Domain.Evidence.{
  Capabilities, Datetime, VolumeSemantics, DepthSemantics,
}

pub record QuoteEvent : Type 0 where
  pub schema_minor : ℕ
  pub event_id : ℕ
  pub symbol : ℕ
  pub price : ℕ
  pub bid : Option ℕ
  pub ask : Option ℕ
  pub provider_timestamp : Datetime
  pub received_at : ℕ
  pub sequence : Option ℕ
  pub provider : ℕ
  pub capabilities : Capabilities
  pub volume : Option ℕ
  pub buy_volume : Option ℕ
  pub sell_volume : Option ℕ
  pub trade_count : Option ℕ
  pub bid_depth : Option ℕ
  pub ask_depth : Option ℕ
  pub volume_semantics : Option VolumeSemantics
  pub depth_semantics : Option DepthSemantics

abbrev crossed : Option ℕ → Option ℕ → Bool
crossed (some bid) (some ask) = ltb ask bid
crossed (some bid) none = false
crossed none ask = false

abbrev overclassified : Option ℕ → Option ℕ → Option ℕ → Bool
overclassified (some buy) (some sell) (some volume) = ltb volume (buy + sell)
overclassified (some buy) (some sell) none = false
overclassified (some buy) none volume = false
overclassified none sell volume = false

abbrev deep : Option DepthSemantics → Bool
deep none = false
deep (some s) = not (s.levels == 1)

abbrev volume_values_present : QuoteEvent → Bool
volume_values_present e =
    is_some e.volume || is_some e.buy_volume || is_some e.sell_volume || is_some e.trade_count

abbrev flow_present : QuoteEvent → Bool
flow_present e = is_some e.buy_volume || is_some e.sell_volume

abbrev depth_present : QuoteEvent → Bool
depth_present e = is_some e.bid_depth || is_some e.ask_depth

abbrev rich_values_present : QuoteEvent → Bool
rich_values_present e =
    volume_values_present e
    || (depth_present e || (is_some e.volume_semantics || is_some e.depth_semantics))

unfoldable pub check_schema : QuoteEvent → Outcome (Unit {0})
check_schema e = do
  refuse_if (crossed e.bid e.ask) value_error
  refuse_if (not e.capabilities.level1_quote) value_error
  refuse_if (rich_values_present e && ltb e.schema_minor 1) value_error
  ok tt

unfoldable pub check_volume : QuoteEvent → Outcome (Unit {0})
check_volume e = do
  refuse_if (volume_values_present e && not (is_some e.volume_semantics)) value_error
  refuse_if (is_some e.volume && not e.capabilities.volume) value_error
  ok tt

unfoldable pub check_flow : QuoteEvent → Outcome (Unit {0})
check_flow e =
    if flow_present e
    then (do
      refuse_if (not (is_some e.buy_volume) || not (is_some e.sell_volume)) value_error
      refuse_if (not e.capabilities.aggressor_flow) value_error
      refuse_if (overclassified e.buy_volume e.sell_volume e.volume) value_error
      ok tt)
    else ok tt

unfoldable pub check_trade_count : QuoteEvent → Outcome (Unit {0})
check_trade_count e = do
  refuse_if (is_some e.trade_count && not e.capabilities.trade_count) value_error
  ok tt

unfoldable pub check_depth : QuoteEvent → Outcome (Unit {0})
check_depth e =
    if depth_present e
    then (do
      refuse_if (not (is_some e.bid_depth) || not (is_some e.ask_depth)) value_error
      refuse_if (not (is_some e.depth_semantics)) value_error
      refuse_if (deep e.depth_semantics) value_error
      refuse_if (not e.capabilities.top_of_book_depth) value_error
      ok tt)
    else ok tt

unfoldable pub validate_market : QuoteEvent → Outcome QuoteEvent
validate_market e = do
  check_schema e
  check_volume e
  check_flow e
  check_trade_count e
  check_depth e
  ok e

-- A plain event of schema 1.0, for tests.
abbrev pub sample : QuoteEvent
sample = record {
  schema_minor = 0;
  event_id = 7;
  symbol = 3;
  price = 100;
  bid = some 99;
  ask = some 101;
  provider_timestamp = record { micros = 125000000; aware = true };
  received_at = 125000900;
  sequence = some 5;
  provider = 1;
  capabilities = record {
    level1_quote = true;
    volume = false;
    aggressor_flow = false;
    trade_count = false;
    top_of_book_depth = false;
  };
  volume = none;
  buy_volume = none;
  sell_volume = none;
  trade_count = none;
  bid_depth = none;
  ask_depth = none;
  volume_semantics = none;
  depth_semantics = none;
}
