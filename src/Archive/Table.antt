-- ===== src/Archive/Table.antt =====
-- candle_archive.py: the tables of `_CREATE_TABLES`, and `persist_event` with its statement
-- `_UPSERT_EVENT`. A table with a primary key is a list of its keys, or a partial function on them.
use smart_market_data_gatewa.Prelude.{
  ℕ, ◌+◌, ◌≡◌, Bool, true, false, ◌&&◌, ◌==◌, if◌then◌else◌, Option, none, some, List, ◌∷◌, min,
  max, arith, contains,
}
use smart_market_data_gatewa.Prelude.Outcome.{Outcome, ok, ◌>>=◌}
use smart_market_data_gatewa.Domain.Quote.{QuoteEvent}
use smart_market_data_gatewa.Candles.Time.{floor_time}
use smart_market_data_gatewa.Candles.Base.{BaseMinuteCandle, updated, key_lt}

pub record Archive : Type 0 where
  pub events : List ℕ
  pub rows : ℕ → ℕ → Option BaseMinuteCandle

abbrev pub empty : Archive
empty = record { events = List.[]; rows = λ symbol open_time. none }

-- The row that `SELECT ... FROM accepted` offers.
abbrev pub offered : QuoteEvent → ℕ → BaseMinuteCandle
offered e bucket = record {
  symbol = e.symbol;
  open_time = bucket;
  open_price = e.price;
  high = e.price;
  low = e.price;
  close_price = e.price;
  activity_count = 1;
  first_provider_timestamp = e.provider_timestamp.micros;
  last_provider_timestamp = e.provider_timestamp.micros;
  first_event_id = e.event_id;
  last_event_id = e.event_id;
}

-- `ON CONFLICT (symbol, open_time) DO UPDATE SET`: `row` is the stored row, `excluded` the offer.
pub merged : BaseMinuteCandle → BaseMinuteCandle → BaseMinuteCandle
merged row excluded =
    let earlier =
      key_lt excluded.first_provider_timestamp excluded.first_event_id row.first_provider_timestamp
        row.first_event_id in
    let later =
      key_lt row.last_provider_timestamp row.last_event_id excluded.last_provider_timestamp
        excluded.last_event_id in
    record row {
      open_price = if earlier then excluded.open_price else row.open_price;
      high = max row.high excluded.high;
      low = min row.low excluded.low;
      close_price = if later then excluded.close_price else row.close_price;
      activity_count = row.activity_count + 1;
      first_provider_timestamp = min row.first_provider_timestamp excluded.first_provider_timestamp;
      last_provider_timestamp = max row.last_provider_timestamp excluded.last_provider_timestamp;
      first_event_id = if earlier then excluded.first_event_id else row.first_event_id;
      last_event_id = if later then excluded.last_event_id else row.last_event_id;
    }

abbrev upserted : Option BaseMinuteCandle → BaseMinuteCandle → BaseMinuteCandle
upserted none excluded = excluded
upserted (some row) excluded = merged row excluded

-- The statement, and whether it returned a row.
unfoldable pub upsert_event : Archive → QuoteEvent → ℕ → Archive × Bool
upsert_event a e bucket = if contains a.events e.event_id then (a, false) else (
  record {
    events = e.event_id ∷ a.events;
    rows = λ symbol open_time.
        if e.symbol == symbol && bucket == open_time
        then some (upserted (a.rows e.symbol bucket) (offered e bucket))
        else a.rows symbol open_time;
  },
  true,
)

unfoldable pub persist_event : Archive → QuoteEvent → Outcome (Archive × Bool)
unfolding upsert_event
persist_event a e = do bucket ← floor_time e.provider_timestamp 60; ok (upsert_event a e bucket)

-- The database's merge, by columns, is Python's update, by keys.
pub merged-offered :
    (c : BaseMinuteCandle) (e : QuoteEvent) (bucket : ℕ) → merged c (offered e bucket) ≡ updated c e
unfolding merged updated key_lt
merged-offered c e bucket = ground arith
