-- ===== src/Providers/Coinbase/Event.antt =====
-- providers/coinbase.py: the `QuoteEvent` that `_build_quote_event` makes, and how it is checked.
use smart_market_data_gatewa.Prelude.{
  ℕ, Bool, true, false, ◌&&◌, ◌||◌, ◌==◌, ltb, not, is_some, Option, none, some, List, [], ◌∷◌,
  ◌++◌, length,
}
use smart_market_data_gatewa.Prelude.Text.{Text}
use smart_market_data_gatewa.Prelude.Outcome.{Outcome, value_error, refuse_if, ◌>>=◌, ◌>>◌}
use smart_market_data_gatewa.Domain.Evidence.{
  DepthSemantics, interval, base_asset, native, gateway_derived, require_timezone,
}
use smart_market_data_gatewa.Domain.Quote.{QuoteEvent, validate_market}
use smart_market_data_gatewa.Providers.Coinbase.Json.{Python}
use smart_market_data_gatewa.Providers.Coinbase.Values.{Amount, all_allowed}
use smart_market_data_gatewa.Providers.Coinbase.Names
use smart_market_data_gatewa.Providers.Coinbase.Ticker.{TickerState}
use smart_market_data_gatewa.Providers.Coinbase.Trades.{Tally}

-- `",".join(trade_ids)`
unfoldable pub joined : List Text → Text
joined [] = []
joined (id ∷ []) = id
joined (id ∷ other ∷ ids) = id ++ 44 ∷ joined (other ∷ ids)

abbrev event_identity : Text → List Text → Text
event_identity symbol ids = Names.provider_name ++ 58 ∷ symbol ++ 58 ∷ joined ids

abbrev pub book_depth : Option TickerState → (TickerState → Option Amount) → Option Amount
book_depth none read = none
book_depth (some t) read = read t

abbrev pub units_of : Option Amount → Option ℕ
units_of none = none
units_of (some a) = some a.units

abbrev pub infinite_in : Option Amount → Bool
infinite_in none = false
infinite_in (some a) = a.is_infinite

-- Whether one of the event's fields would be infinite, which `QuoteEvent` refuses.
abbrev pub has_infinity : Option TickerState → Tally → Amount → Bool
has_infinity ticker t price =
    price.is_infinite
    || infinite_in (book_depth ticker λ s. s.bid)
    || infinite_in (book_depth ticker λ s. s.ask)
    || t.total_volume.is_infinite
    || t.aggressive_buy_volume.is_infinite
    || t.aggressive_sell_volume.is_infinite
    || infinite_in (book_depth ticker λ s. s.bid_quantity)
    || infinite_in (book_depth ticker λ s. s.ask_quantity)

abbrev pub native_depth : Bool → Option DepthSemantics
native_depth true =
    some (record { unit = base_asset; levels = 1; currency = none; origin = native })
native_depth false = none

abbrev pub not_positive : Option ℕ → Bool
not_positive none = false
not_positive (some n) = n == 0

-- The constraints of the fields of `QuoteEvent` on a symbol, prices and times, and its validator.
unfoldable pub construct : Text → QuoteEvent → Outcome QuoteEvent
construct symbol e = do
  refuse_if (length symbol == 0 || ltb 32 (length symbol) || not (all_allowed symbol)) value_error
  refuse_if (e.price == 0) value_error
  refuse_if (not_positive e.bid) value_error
  refuse_if (not_positive e.ask) value_error
  at ← require_timezone e.provider_timestamp
  validate_market e

module _ (py : Python) where
  -- The arguments of the `QuoteEvent` that `_build_quote_event` returns.
  unfoldable pub quote_event : Text → Option TickerState → Tally → Amount → ℕ → ℕ → ℕ → QuoteEvent
  quote_event symbol ticker t price count sequence received_at =
      let bid_depth = book_depth ticker λ s. s.bid_quantity in
      let ask_depth = book_depth ticker λ s. s.ask_quantity in
      let deep = is_some bid_depth && is_some ask_depth in
      record {
        schema_minor = 1;
        event_id = py.uuid5 (event_identity symbol t.trade_ids);
        symbol = py.code symbol;
        price = price.units;
        bid = units_of (book_depth ticker λ s. s.bid);
        ask = units_of (book_depth ticker λ s. s.ask);
        provider_timestamp = t.latest_timestamp;
        received_at = received_at;
        sequence = some sequence;
        provider = py.code Names.provider_name;
        capabilities = record {
          level1_quote = true;
          volume = true;
          aggressor_flow = true;
          trade_count = true;
          top_of_book_depth = deep;
        };
        volume = some t.total_volume.units;
        buy_volume = some t.aggressive_buy_volume.units;
        sell_volume = some t.aggressive_sell_volume.units;
        trade_count = some count;
        bid_depth = units_of bid_depth;
        ask_depth = units_of ask_depth;
        volume_semantics = some (record {
          kind = interval;
          unit = base_asset;
          aggregation_window_ms = some 250;
          currency = none;
          origin = gateway_derived;
        });
        depth_semantics = native_depth deep;
      }
