-- ===== src/Providers/Coinbase/Ticker.antt =====
-- providers/coinbase.py: `_TickerState`, and an entry of a ticker message.
use smart_market_data_gatewa.Prelude.{Option}
use smart_market_data_gatewa.Prelude.Text.{Text}
use smart_market_data_gatewa.Prelude.Outcome.{Outcome, ok, ◌>>=◌}
use smart_market_data_gatewa.Domain.Evidence.{Datetime}
use smart_market_data_gatewa.Providers.Coinbase.Json.{Fields, get, Python}
use smart_market_data_gatewa.Providers.Coinbase.Values.{
  Amount, symbol_of, positive_decimal, optional_positive_decimal, optional_non_negative_decimal,
}
use smart_market_data_gatewa.Providers.Coinbase.Names

pub record TickerState : Type 0 where
  pub price : Amount
  pub bid : Option Amount
  pub ask : Option Amount
  pub bid_quantity : Option Amount
  pub ask_quantity : Option Amount
  pub provider_timestamp : Datetime

module _ (py : Python) where
  -- The ticker of one entry of a message.
  unfoldable pub ticker_state : Datetime → Fields → Outcome TickerState
  ticker_state message_timestamp ticker = do
    price ← positive_decimal py (get ticker Names.price)
    bid ← optional_positive_decimal py (get ticker Names.best_bid)
    ask ← optional_positive_decimal py (get ticker Names.best_ask)
    bid_quantity ← optional_non_negative_decimal py (get ticker Names.best_bid_quantity)
    ask_quantity ← optional_non_negative_decimal py (get ticker Names.best_ask_quantity)
    ok (record {
      price = price;
      bid = bid;
      ask = ask;
      bid_quantity = bid_quantity;
      ask_quantity = ask_quantity;
      provider_timestamp = message_timestamp;
    })

  abbrev pub named_ticker : Datetime → Fields → Outcome (Text × TickerState)
  named_ticker at ticker = do
    symbol ← symbol_of py (get ticker Names.product_id)
    state ← ticker_state at ticker
    ok (symbol, state)
