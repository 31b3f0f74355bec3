-- ===== src/Providers/Coinbase/Trades.antt =====
-- providers/coinbase.py: the sums of a batch of trades, by the loop of `_build_quote_event`.
pub mod Sums
use smart_market_data_gatewa.Prelude.{ltb, if◌then◌else◌, Option, none, some, List, [], ◌∷◌, ◌++◌}
use smart_market_data_gatewa.Prelude.Text.{Text, text_eq, upper}
use smart_market_data_gatewa.Prelude.Outcome.{Outcome, ok, raised, value_error, ◌>>=◌}
use smart_market_data_gatewa.Domain.Evidence.{Datetime}
use smart_market_data_gatewa.Providers.Coinbase.Json.{
  Json, null, string, scalar, array, object, Fields, get, get_or, Python, str, strip,
}
use smart_market_data_gatewa.Providers.Coinbase.Values.{
  Amount, finite, plus, timestamp, positive_decimal, non_negative_decimal,
}
use smart_market_data_gatewa.Providers.Coinbase.Names

-- The sums of a batch of trades.
pub record Tally : Type 0 where
  pub total_volume : Amount
  pub aggressive_buy_volume : Amount
  pub aggressive_sell_volume : Amount
  pub trade_ids : List Text
  pub latest_price : Option Amount
  pub latest_timestamp : Datetime

abbrev pub no_trades : Datetime → Tally
no_trades message_timestamp = record {
  total_volume = finite 0;
  aggressive_buy_volume = finite 0;
  aggressive_sell_volume = finite 0;
  trade_ids = [];
  latest_price = none;
  latest_timestamp = message_timestamp;
}

-- The volume on the side of the aggressor: a maker who sells was met by a buyer.
unfoldable pub add_side : Text → Amount → Tally → Outcome Tally
add_side side size t =
    if text_eq side Names.sell
    then ok (record t { aggressive_buy_volume = plus t.aggressive_buy_volume size })
    else if text_eq side Names.buy
    then ok (record t { aggressive_sell_volume = plus t.aggressive_sell_volume size })
    else raised value_error

abbrev pub add_id : Text → Tally → Outcome Tally
add_id [] t = raised value_error
add_id (c ∷ id) t = ok (record t { trade_ids = t.trade_ids ++ (c ∷ id) ∷ [] })

abbrev pub later : Datetime → Datetime → Datetime
later new old = if ltb old.micros new.micros then new else old

-- A text of a JSON value, stripped, and "" if there is none.
abbrev pub field_text : Python → Fields → Text → Text
field_text py fields name = strip (str py (get_or fields name (string [])))

module _ (py : Python) where
  abbrev pub with_timestamp : Tally → Outcome Datetime → Outcome Tally
  with_timestamp t (ok time) = ok (record t { latest_timestamp = later time t.latest_timestamp })
  with_timestamp t (raised e) = raised e

  abbrev pub add_time : Json → Tally → Outcome Tally
  add_time null t = ok t
  add_time (scalar truth s) t = with_timestamp t (timestamp py (scalar truth s))
  add_time (string s) t = with_timestamp t (timestamp py (string s))
  add_time (array items) t = with_timestamp t (timestamp py (array items))
  add_time (object fields) t = with_timestamp t (timestamp py (object fields))

  -- A round of the loop over the trades of `_build_quote_event`.
  unfoldable pub add_trade : Fields → Tally → Outcome Tally
  add_trade trade t = do
    size ← non_negative_decimal py (get trade Names.size)
    price ← positive_decimal py (get trade Names.price)
    sided ← add_side (upper (field_text py trade Names.side)) size t
    named ← add_id (field_text py trade Names.trade_id) sided
    add_time (get trade Names.time)
        (record named { total_volume = plus named.total_volume size; latest_price = some price })

  unfoldable pub add_trades : List Fields → Tally → Outcome Tally
  add_trades [] t = ok t
  add_trades (trade ∷ trades) t = do next ← add_trade trade t; add_trades trades next
