-- ===== src/Candles/Aggregate/Series.antt =====
-- The second loop of `aggregate_base_candles`, over a list of buckets.
use smart_market_data_gatewa.Prelude.{
  ℕ, ◌<◌, ◌≤◌, List, [], ◌∷◌, ◌++◌, map, arith, All, All-append, length, length-append, Bool-cases,
  inl, inr, Ascending, ltb,
}
use smart_market_data_gatewa.Prelude.Dict.{Dict, get}
use smart_market_data_gatewa.Candles.Base.{BaseMinuteCandle}
use smart_market_data_gatewa.Candles.Time.{Timeframe}
use smart_market_data_gatewa.Candles.Aggregate.{
  Candle, max_of, or_empty, summary, summarise, summaries,
}

module _ (end symbol : ℕ) (tf : Timeframe) where
  -- A bucket yields at most one candle, and that candle is its own.
  summarise-times :
      (P : ℕ → Type 0) (b : ℕ) (obs : List BaseMinuteCandle)
      → P b
      → All (λ k. P k.open_time) (summarise end symbol tf b obs)
  unfolding summarise summary
  summarise-times P b [] p = tt
  summarise-times P b (c ∷ cs) p = ground arith

  pub length-summarise :
      (b : ℕ) (obs : List BaseMinuteCandle) → length (summarise end symbol tf b obs) ≤ 1
  unfolding summarise
  length-summarise b [] = omega arith
  length-summarise b (c ∷ cs) = ground arith

  module _ (g : Dict (List BaseMinuteCandle)) where
    pub length-summaries : (bs : List ℕ) → length (summaries end symbol tf g bs) ≤ length bs
    unfolding summaries
    length-summaries [] = omega arith
    length-summaries (b ∷ bs) = omega (
      arith,
      length-append (summarise end symbol tf b (or_empty (get g b))) (summaries end symbol tf g bs),
      length-summarise b (or_empty (get g b)),
      length-summaries bs,
    )

    pub summaries-times :
        (P : ℕ → Type 0) (bs : List ℕ)
        → All P bs
        → All (λ k. P k.open_time) (summaries end symbol tf g bs)
    unfolding summaries
    summaries-times P [] h = tt
    summaries-times P (b ∷ bs) h =
        All-append (λ k. P k.open_time) (summarise end symbol tf b (or_empty (get g b))) _
          (summarise-times P b (or_empty (get g b)) h.0) (summaries-times P bs h.1)

    pub summaries-All :
        (P : Candle → Type 0) (bs : List ℕ)
        → All (λ b. All P (summarise end symbol tf b (or_empty (get g b)))) bs
        → All P (summaries end symbol tf g bs)
    unfolding summaries
    summaries-All P [] h = tt
    summaries-All P (b ∷ bs) h = All-append P _ _ h.0 (summaries-All P bs h.1)

abbrev pub open_times : List Candle → List ℕ
open_times = map λ k. k.open_time

All-open_times :
    (P : ℕ → Type 0) (ks : List Candle) → All (λ k. P k.open_time) ks → All P (open_times ks)
All-open_times P [] h = tt
All-open_times P (k ∷ ks) h = (h.0, All-open_times P ks h.1)

prepend-Ascending :
    (end symbol : ℕ) (tf : Timeframe) (b : ℕ) (obs : List BaseMinuteCandle) (ks : List Candle)
    → All (λ k. b < k.open_time) ks
    → Ascending (open_times ks)
    → Ascending (open_times (summarise end symbol tf b obs ++ ks))
unfolding summarise summary
prepend-Ascending end symbol tf b [] ks h a = a
prepend-Ascending end symbol tf b (c ∷ cs) ks h a =
    elim (Bool-cases
      (ltb end (max_of (λ x. x.last_provider_timestamp) c.last_provider_timestamp cs))) [
        | inl late ↦ rw late a
        | inr timely ↦ rw timely (All-open_times (λ t. b < t) ks h, a)
      ]

pub summaries-Ascending :
    (end symbol : ℕ) (tf : Timeframe) (g : Dict (List BaseMinuteCandle)) (bs : List ℕ)
    → Ascending bs
    → Ascending (open_times (summaries end symbol tf g bs))
unfolding summaries
summaries-Ascending end symbol tf g [] a = tt
summaries-Ascending end symbol tf g (b ∷ bs) a =
    prepend-Ascending end symbol tf b (or_empty (get g b)) (summaries end symbol tf g bs)
      (summaries-times end symbol tf g (λ t. b < t) bs a.0)
      (summaries-Ascending end symbol tf g bs a.1)
