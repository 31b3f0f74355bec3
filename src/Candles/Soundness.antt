-- ===== src/Candles/Soundness.antt =====
-- Every candle built from quotes is a sound summary: prices and times in range.
use smart_market_data_gatewa.Prelude.{◌+◌, ◌≤◌, ◌<◌, ◌≡◌, arith}
use smart_market_data_gatewa.Prelude.Outcome.{ok}
use smart_market_data_gatewa.Domain.Quote.{QuoteEvent}
use smart_market_data_gatewa.Candles.Time.{floor_instant_bounds, floor_time, seconds}
use smart_market_data_gatewa.Candles.Base.{
  BaseMinuteCandle, from_quote, with_quote, updated, key_lt,
}

pub record IsSound (c : BaseMinuteCandle) : Type 0 where
  pub low-open : c.low ≤ c.open_price
  pub open-high : c.open_price ≤ c.high
  pub low-close : c.low ≤ c.close_price
  pub close-high : c.close_price ≤ c.high
  pub counted : 1 ≤ c.activity_count
  pub opened : c.open_time ≤ c.first_provider_timestamp
  pub ordered : c.first_provider_timestamp ≤ c.last_provider_timestamp
  pub closed : c.last_provider_timestamp < c.open_time + seconds 60
  pub ties :
      c.first_provider_timestamp ≡ c.last_provider_timestamp → c.first_event_id ≤ c.last_event_id

pub from_quote-IsSound : (e : QuoteEvent) {c : BaseMinuteCandle} → from_quote e ≡ ok c → IsSound c
unfolding from_quote floor_time
from_quote-IsSound e h = ground (arith, floor_instant_bounds e.provider_timestamp.micros 60)

pub with_quote-IsSound :
    (c : BaseMinuteCandle) (e : QuoteEvent) {d : BaseMinuteCandle}
    → IsSound c
    → with_quote c e ≡ ok d
    → IsSound d
unfolding with_quote updated key_lt floor_time
with_quote-IsSound c e s h = ground (arith, floor_instant_bounds e.provider_timestamp.micros 60)
