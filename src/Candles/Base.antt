-- ===== src/Candles/Base.antt =====
-- candles.py: `BaseMinuteCandle`, made from a first quote and extended by later ones. Timestamps
-- are instants, since the validators turn them into UTC; an event id is compared as its text.
use smart_market_data_gatewa.Prelude.{
  ℕ, ◌+◌, ◌≡◌, ◌≢◌, Bool, true, ◌&&◌, ◌||◌, not, ltb, ◌==◌, if◌then◌else◌, Option, none, some, min,
  max, arith,
}
use smart_market_data_gatewa.Prelude.Outcome.{Outcome, ok, value_error, refuse_if, ◌>>=◌, ◌>>◌}
use smart_market_data_gatewa.Domain.Quote.{QuoteEvent}
use smart_market_data_gatewa.Candles.Time.{floor_time}

pub record BaseMinuteCandle : Type 0 where
  pub symbol : ℕ
  pub open_time : ℕ
  pub open_price : ℕ
  pub high : ℕ
  pub low : ℕ
  pub close_price : ℕ
  pub activity_count : ℕ
  pub first_provider_timestamp : ℕ
  pub last_provider_timestamp : ℕ
  pub first_event_id : ℕ
  pub last_event_id : ℕ

unfoldable pub from_quote : QuoteEvent → Outcome BaseMinuteCandle
unfolding floor_time
from_quote event = do
  bucket ← floor_time event.provider_timestamp 60
  ok (record {
    symbol = event.symbol;
    open_time = bucket;
    open_price = event.price;
    high = event.price;
    low = event.price;
    close_price = event.price;
    activity_count = 1;
    first_provider_timestamp = event.provider_timestamp.micros;
    last_provider_timestamp = event.provider_timestamp.micros;
    first_event_id = event.event_id;
    last_event_id = event.event_id;
  })

-- `(t, id) < (t', id')` on Python's tuples
unfoldable pub key_lt : ℕ → ℕ → ℕ → ℕ → Bool
key_lt t i t' i' = ltb t t' || (t == t' && ltb i i')

unfoldable pub updated : BaseMinuteCandle → QuoteEvent → BaseMinuteCandle
updated c event =
    let t : ℕ = event.provider_timestamp.micros in
    let earlier = key_lt t event.event_id c.first_provider_timestamp c.first_event_id in
    let later = key_lt c.last_provider_timestamp c.last_event_id t event.event_id in
    record c {
      open_price = if earlier then event.price else c.open_price;
      high = max c.high event.price;
      low = min c.low event.price;
      close_price = if later then event.price else c.close_price;
      activity_count = c.activity_count + 1;
      first_provider_timestamp = if earlier then t else c.first_provider_timestamp;
      last_provider_timestamp = if later then t else c.last_provider_timestamp;
      first_event_id = if earlier then event.event_id else c.first_event_id;
      last_event_id = if later then event.event_id else c.last_event_id;
    }

unfoldable pub with_quote : BaseMinuteCandle → QuoteEvent → Outcome BaseMinuteCandle
with_quote c event = do
  refuse_if (not (event.symbol == c.symbol)) value_error
  bucket ← floor_time event.provider_timestamp 60
  refuse_if (not (bucket == c.open_time)) value_error
  ok (updated c event)

-- The choice that `RedisStore.cache_quote` makes for the candle of the quote's minute.
unfoldable pub next_candle : Option BaseMinuteCandle → QuoteEvent → Outcome BaseMinuteCandle
next_candle none event = from_quote event
next_candle (some candle) event = with_quote candle event

-- Keys with distinct ids are ordered strictly and totally.
pub key_lt_flip : (t i t' i' : ℕ) → i ≢ i' → key_lt t i t' i' ≡ not (key_lt t' i' t i)
unfolding key_lt
key_lt_flip t i t' i' h = ground arith

pub key_lt_trans :
    (t i t' i' t'' i'' : ℕ)
    → key_lt t i t' i' ≡ true
    → key_lt t' i' t'' i'' ≡ true
    → key_lt t i t'' i'' ≡ true
unfolding key_lt
key_lt_trans t i t' i' t'' i'' h k = ground arith
