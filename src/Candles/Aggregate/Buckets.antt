-- ===== src/Candles/Aggregate/Buckets.antt =====
-- A window of `limit` intervals has room for `limit` buckets, so `data[-limit:]` drops nothing.
use native.Mathlib.Nat.{mul-le-mul_right, lt_of_mul-lt-mul_right}
use smart_market_data_gatewa.Prelude.{
  ℕ, suc, ◌+◌, ◌*◌, ◌/◌, ◌<◌, ◌≤◌, ◌≡◌, false, List, [], ◌∷◌, arith, length, All, Ascending,
}
use smart_market_data_gatewa.Prelude.Outcome.{ok}
use smart_market_data_gatewa.Domain.Evidence.{Datetime}
use smart_market_data_gatewa.Candles.Time.{
  Timeframe, timeframe_seconds, m1, m5, m15, h1, h4, d1, seconds, floor_instant,
  floor_instant-multiple, floor_instant_bounds, history_window,
}
use smart_market_data_gatewa.Candles.Aggregate.{outside}
use smart_market_data_gatewa.Candles.Aggregate.Groups.{IsBucket}

-- Two multiples of the interval that differ are an interval apart.
apart : (p q s : ℕ) → p * s < q * s → p * s + s ≤ q * s
apart p q s h = omega (arith, mul-le-mul_right s (lt_of_mul-lt-mul_right s h))

bucket_step :
    (a b s : ℕ) → floor_instant a s ≡ a → floor_instant b s ≡ b → a < b → a + seconds s ≤ b
bucket_step a b s p q h = omega (
  arith,
  floor_instant-multiple a s,
  floor_instant-multiple b s,
  apart (a / 1000000 / s) (b / 1000000 / s) s,
)

pub inside_bounds :
    (start end s b : ℕ) → outside start end s b ≡ false → (start ≤ b) × (b + seconds s ≤ end)
unfolding outside
inside_bounds start end s b h = ground arith

buckets_fit :
    (start end s b : ℕ) (bs : List ℕ)
    → All (IsBucket start end s) (b ∷ bs)
    → Ascending (b ∷ bs)
    → b + length (b ∷ bs) * seconds s ≤ end
buckets_fit start end s b [] h a = omega (arith, inside_bounds start end s b h.0.0)
buckets_fit start end s b (c ∷ bs) h a =
    omega (arith, bucket_step b c s h.0.1 h.1.0.1 a.0.0, buckets_fit start end s c bs h.1 a.1)

-- The window ends less than one interval after `limit` intervals from its start.
window_span :
    (timeframe : Timeframe) (limit : ℕ) (end : Datetime) {w : ℕ × ℕ}
    → history_window timeframe limit end ≡ ok w
    → w.1 < w.0 + suc limit * seconds (timeframe_seconds timeframe)
unfolding history_window
window_span m1 limit end h = ground (arith, floor_instant_bounds end.micros 60)
window_span m5 limit end h = ground (arith, floor_instant_bounds end.micros 300)
window_span m15 limit end h = ground (arith, floor_instant_bounds end.micros 900)
window_span h1 limit end h = ground (arith, floor_instant_bounds end.micros 3600)
window_span h4 limit end h = ground (arith, floor_instant_bounds end.micros 14400)
window_span d1 limit end h = ground (arith, floor_instant_bounds end.micros 86400)

pub buckets-le-limit :
    (timeframe : Timeframe) (limit : ℕ) (end : Datetime) (w : ℕ × ℕ) (bs : List ℕ)
    → history_window timeframe limit end ≡ ok w
    → All (IsBucket w.0 w.1 (timeframe_seconds timeframe)) bs
    → Ascending bs
    → length bs ≤ limit
buckets-le-limit timeframe limit end w [] h a d = omega arith
buckets-le-limit timeframe limit end w (b ∷ bs) h a d =
    let s = timeframe_seconds timeframe in
    let room : length (b ∷ bs) * seconds s < suc limit * seconds s = omega (
      arith,
      window_span timeframe limit end h,
      inside_bounds w.0 w.1 s b a.0.0,
      buckets_fit w.0 w.1 s b bs a d,
    ) in
    omega (arith, lt_of_mul-lt-mul_right (seconds s) room)
