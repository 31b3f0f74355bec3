-- ===== src/Candles/Time.antt =====
-- candles.py: `floor_time`, `timeframe_seconds` and `history_window`. Instants are microseconds
-- from the Unix epoch; what would lie before the epoch is taken to be the epoch.
use smart_market_data_gatewa.Prelude.{
  ℕ, ◌+◌, ◌-◌, ◌*◌, ◌/◌, ◌%◌, ◌≤◌, ◌<◌, ◌≡◌, true, ap, not, arith, ltb,
}
use smart_market_data_gatewa.Prelude.Outcome.{Outcome, ok, value_error, refuse_if, ◌>>=◌, ◌>>◌}
use native.Mathlib.Nat.{div-add-mod', mul-div_cancel}
use smart_market_data_gatewa.Domain.Evidence.{Datetime}

pub data Timeframe : Type 0 where
  m1 m5 m15 h1 h4 d1 : Timeframe

abbrev pub timeframe_seconds : Timeframe → ℕ
timeframe_seconds m1 = 60
timeframe_seconds m5 = 300
timeframe_seconds m15 = 900
timeframe_seconds h1 = 3600
timeframe_seconds h4 = 14400
timeframe_seconds d1 = 86400

-- `timedelta(seconds=n)`
abbrev pub seconds : ℕ → ℕ
seconds n = n * 1000000

-- The bucket of an instant: whole seconds, less the remainder by the interval.
unfoldable pub floor_instant : ℕ → ℕ → ℕ
floor_instant micros interval_seconds =
    seconds (micros / 1000000 - (micros / 1000000) % interval_seconds)

unfoldable pub floor_time : Datetime → ℕ → Outcome ℕ
floor_time value interval_seconds = do
  refuse_if (not value.aware) value_error
  ok (floor_instant value.micros interval_seconds)

unfoldable pub history_window : Timeframe → ℕ → Datetime → Outcome (ℕ × ℕ)
unfolding floor_time
history_window timeframe limit end = do
  refuse_if (ltb limit 1) value_error
  refuse_if (not end.aware) value_error
  bucket ← floor_time end (timeframe_seconds timeframe)
  let last_closed_bucket = bucket - seconds (timeframe_seconds timeframe)
  let start = last_closed_bucket - seconds (timeframe_seconds timeframe * (limit - 1))
  ok (start, end.micros)

-- An instant lies in its bucket.
pub floor_instant_bounds :
    (t s : ℕ) → 0 < s → (floor_instant t s ≤ t) × (t < floor_instant t s + seconds s)
unfolding floor_instant
floor_instant_bounds t s h = omega arith

-- A bucket is a multiple of the interval.
pub floor_instant-multiple : (t s : ℕ) → floor_instant t s ≡ seconds (t / 1000000 / s * s)
unfolding floor_instant
floor_instant-multiple t s = omega (arith, div-add-mod' (t / 1000000) s)

-- Buckets are their own buckets.
pub floor_instant-floor_instant :
    (t s : ℕ) → 0 < s → floor_instant (floor_instant t s) s ≡ floor_instant t s
floor_instant-floor_instant t s h =
    rw (floor_instant-multiple (floor_instant t s) s, floor_instant-multiple t s)
      (ap (λ q. seconds (q * s)) (again (t / 1000000 / s)))
  where
    again : (q : ℕ) → seconds (q * s) / 1000000 / s ≡ q
    again q = rw (mul-div_cancel (q * s) {n = 1000000} (omega arith)) (mul-div_cancel q h)

pub floor_instant_mono : (t u s : ℕ) → 0 < s → t ≤ u → floor_instant t s ≤ floor_instant u s
unfolding floor_instant
floor_instant_mono t u s h k = grind arith

pub timeframe_seconds_pos : (tf : Timeframe) → 0 < timeframe_seconds tf
timeframe_seconds_pos m1 = omega arith
timeframe_seconds_pos m5 = omega arith
timeframe_seconds_pos m15 = omega arith
timeframe_seconds_pos h1 = omega arith
timeframe_seconds_pos h4 = omega arith
timeframe_seconds_pos d1 = omega arith

pub history_window_total :
    (tf : Timeframe) (limit : ℕ) (end : Datetime)
    → 1 ≤ limit
    → end.aware ≡ true
    → (start : ℕ) × (history_window tf limit end ≡ ok (start, end.micros))
unfolding history_window floor_time
history_window_total tf limit end h a = (
  floor_instant end.micros (timeframe_seconds tf)
      - seconds (timeframe_seconds tf)
      - seconds (timeframe_seconds tf * (limit - 1)),
  ground arith,
)
