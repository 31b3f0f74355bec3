-- ===== src/Candles/Aggregate.antt =====
-- candles.py: `Candle`, `CandleSeries` and `aggregate_base_candles`. The texts of the warnings are
-- the constructors of `Warning`; a field that pydantic bounds is checked where it is built.
pub mod Groups
pub mod Buckets
pub mod Summary
pub mod Series
pub mod Exact
pub mod Complete
pub mod Tests
use mathlib.Core.List.{foldl}
use smart_market_data_gatewa.Prelude.{
  ℕ, ◌+◌, ◌-◌, ◌||◌, Bool, true, ltb, leb, if◌then◌else◌, Option, none, some, List, [], ◌∷◌, ◌++◌,
  min, max, length, drop, sorted_numbers,
}
use smart_market_data_gatewa.Prelude.Dict.{Dict, get, put, keys}
use smart_market_data_gatewa.Prelude.Outcome.{
  Outcome, ok, raised, value_error, refuse_if, ◌>>=◌, ◌>>◌,
}
use smart_market_data_gatewa.Domain.Evidence.{Datetime}
use smart_market_data_gatewa.Candles.Time.{
  Timeframe, timeframe_seconds, seconds, floor_instant, history_window,
}
use smart_market_data_gatewa.Candles.Base.{BaseMinuteCandle}

pub record Candle : Type 0 where
  pub symbol : ℕ
  pub timeframe : Timeframe
  pub open_time : ℕ
  pub close_time : ℕ
  pub open_price : ℕ
  pub high : ℕ
  pub low : ℕ
  pub close_price : ℕ
  pub activity_count : ℕ
  pub first_observation : ℕ
  pub last_observation : ℕ
  pub closed : Bool

pub data Warning : Type 0 where
  quotes_only empty_omitted closed_only hot_only archive_only overlaid : Warning

pub record CandleSeries : Type 0 where
  pub symbol : ℕ
  pub timeframe : Timeframe
  pub requested_limit : ℕ
  pub returned_count : ℕ
  pub retention_seconds : ℕ
  pub period_start : ℕ
  pub period_end : ℕ
  pub candles : List Candle
  pub warnings : List Warning

-- `sorted(base_candles, key=lambda item: item.open_time)`, which is stable.
pub insert_by_time : BaseMinuteCandle → List BaseMinuteCandle → List BaseMinuteCandle
insert_by_time x [] = x ∷ []
insert_by_time x (y ∷ ys) =
    if leb x.open_time y.open_time then x ∷ y ∷ ys else y ∷ insert_by_time x ys

pub sorted_by_time : List BaseMinuteCandle → List BaseMinuteCandle
sorted_by_time [] = []
sorted_by_time (x ∷ xs) = insert_by_time x (sorted_by_time xs)

abbrev pub or_empty : Option (List BaseMinuteCandle) → List BaseMinuteCandle
or_empty none = []
or_empty (some cs) = cs

-- The loops run at one window: its start, its end, and the interval in seconds.
module _ (start end interval_seconds : ℕ) where
  pub bucket_of : BaseMinuteCandle → ℕ
  bucket_of candle = floor_instant candle.open_time interval_seconds

  pub outside : ℕ → Bool
  outside bucket = ltb bucket start || ltb end (bucket + seconds interval_seconds)

  -- One round of the first loop.
  pub group : Dict (List BaseMinuteCandle) → BaseMinuteCandle → Dict (List BaseMinuteCandle)
  group grouped candle =
      if outside (bucket_of candle)
      then grouped
      else put grouped (bucket_of candle) (or_empty (get grouped (bucket_of candle)) ++ candle ∷ [])

  pub grouping : List BaseMinuteCandle → Dict (List BaseMinuteCandle)
  grouping = foldl group []

abbrev max_of : (BaseMinuteCandle → ℕ) → ℕ → List BaseMinuteCandle → ℕ
max_of f best [] = best
max_of f best (c ∷ cs) = max_of f (max best (f c)) cs

abbrev min_of : (BaseMinuteCandle → ℕ) → ℕ → List BaseMinuteCandle → ℕ
min_of f best [] = best
min_of f best (c ∷ cs) = min_of f (min best (f c)) cs

abbrev sum_of : (BaseMinuteCandle → ℕ) → List BaseMinuteCandle → ℕ
sum_of f [] = 0
sum_of f (c ∷ cs) = f c + sum_of f cs

-- `observations[-1]`, given the first.
abbrev last_of : BaseMinuteCandle → List BaseMinuteCandle → BaseMinuteCandle
last_of c [] = c
last_of c (d ∷ cs) = last_of d cs

-- The candle of a bucket, from its first observation and the others.
pub summary : ℕ → Timeframe → ℕ → BaseMinuteCandle → List BaseMinuteCandle → Candle
summary symbol timeframe bucket c cs = record {
  symbol = symbol;
  timeframe = timeframe;
  open_time = bucket;
  close_time = bucket + seconds (timeframe_seconds timeframe);
  open_price = c.open_price;
  high = max_of (λ x. x.high) c.high cs;
  low = min_of (λ x. x.low) c.low cs;
  close_price = (last_of c cs).close_price;
  activity_count = sum_of (λ x. x.activity_count) (c ∷ cs);
  first_observation = min_of (λ x. x.first_provider_timestamp) c.first_provider_timestamp cs;
  last_observation = max_of (λ x. x.last_provider_timestamp) c.last_provider_timestamp cs;
  closed = true;
}

-- One round of the second loop: nothing for a bucket with an observation after the end.
pub summarise : ℕ → ℕ → Timeframe → ℕ → List BaseMinuteCandle → List Candle
summarise end symbol timeframe bucket [] = []
summarise end symbol timeframe bucket (c ∷ cs) =
    let candle = summary symbol timeframe bucket c cs in
    if ltb end candle.last_observation then [] else candle ∷ []

pub summaries : ℕ → ℕ → Timeframe → Dict (List BaseMinuteCandle) → List ℕ → List Candle
summaries end symbol timeframe grouped [] = []
summaries end symbol timeframe grouped (bucket ∷ buckets) =
    summarise end symbol timeframe bucket (or_empty (get grouped bucket))
    ++ summaries end symbol timeframe grouped buckets

pub all_candles : ℕ → Timeframe → ℕ → ℕ → List BaseMinuteCandle → List Candle
all_candles symbol timeframe start end base =
    let grouped = grouping start end (timeframe_seconds timeframe) (sorted_by_time base) in
    summaries end symbol timeframe grouped (sorted_numbers (keys grouped))

-- `data[-limit:]`
abbrev pub latest : ℕ → List Candle → List Candle
latest limit cs = drop (length cs - limit) cs

pub aggregate_base_candles :
    ℕ → Timeframe → ℕ → Datetime → ℕ → List BaseMinuteCandle → Outcome CandleSeries
aggregate_base_candles symbol timeframe limit end retention_seconds base = do
  window ← history_window timeframe limit end
  let result = latest limit (all_candles symbol timeframe window.0 window.1 base)
  refuse_if (ltb 1000 limit || ltb retention_seconds 1) value_error
  ok (record {
    symbol = symbol;
    timeframe = timeframe;
    requested_limit = limit;
    returned_count = length result;
    retention_seconds = retention_seconds;
    period_start = window.0;
    period_end = window.1;
    candles = result;
    warnings = quotes_only ∷ empty_omitted ∷ closed_only ∷ [];
  })
