-- ===== src/Candles/Aggregate/Complete.antt =====
-- No complete bucket of the window is missing from a series.
use smart_market_data_gatewa.Prelude.{
  ℕ, ◌≤◌, ◌≡◌, refl, sym, ◌∙◌, subst, true, ◌||◌, ◌==◌, List, [], ◌∷◌, ◌++◌, map, Option, none,
  some, arith, contains, All, All-contains, Bool-cases, inl, inr, sorted_numbers,
  contains-sorted_numbers, is_some, ==_iff,
}
use smart_market_data_gatewa.Prelude.Dict.{Dict, get, keys, contains-keys}
use smart_market_data_gatewa.Prelude.Outcome.{ok}
use smart_market_data_gatewa.Domain.Evidence.{Datetime}
use smart_market_data_gatewa.Candles.Base.{BaseMinuteCandle}
use smart_market_data_gatewa.Candles.Time.{Timeframe, timeframe_seconds}
use smart_market_data_gatewa.Candles.Aggregate.{
  Candle, CandleSeries, or_empty, grouping, sorted_by_time, summary, summarise, summaries,
  all_candles, aggregate_base_candles,
}
use smart_market_data_gatewa.Candles.Aggregate.Groups.{IsBucket}
use smart_market_data_gatewa.Candles.Aggregate.Summary.{summary-IsSummary}
use smart_market_data_gatewa.Candles.Aggregate.Series.{open_times}
use smart_market_data_gatewa.Candles.Aggregate.Exact.{observed, get-observed, aggregated}

All-map :
    (f : BaseMinuteCandle → ℕ) (P : ℕ → Type 0) (cs : List BaseMinuteCandle)
    → All (λ c. P (f c)) cs
    → All P (map f cs)
All-map f P [] h = tt
All-map f P (c ∷ cs) h = (h.0, All-map f P cs h.1)

-- If all observations of a bucket are in time, so is the last.
last_in_time :
    (end symbol : ℕ) (tf : Timeframe) (b : ℕ) (c : BaseMinuteCandle) (cs : List BaseMinuteCandle)
    → All (λ x. x.last_provider_timestamp ≤ end) (c ∷ cs)
    → (summary symbol tf b c cs).last_observation ≤ end
last_in_time end symbol tf b c cs h =
    All-contains (λ t. t ≤ end) (map (λ x. x.last_provider_timestamp) (c ∷ cs)) _
      (All-map (λ x. x.last_provider_timestamp) (λ t. t ≤ end) (c ∷ cs) h)
      (summary-IsSummary symbol tf b c cs).last_seen

contains-open_times :
    (ks ms : List Candle) (b : ℕ)
    → contains (open_times (ks ++ ms)) b
      ≡ (contains (open_times ks) b || contains (open_times ms) b)
unfolding contains
contains-open_times [] ms b = refl
contains-open_times (k ∷ ks) ms b = ground (arith, contains-open_times ks ms b)

summarise-open_time :
    (end symbol : ℕ) (tf : Timeframe) (b : ℕ) (c : BaseMinuteCandle) (cs : List BaseMinuteCandle)
    → (summary symbol tf b c cs).last_observation ≤ end
    → contains (open_times (summarise end symbol tf b (c ∷ cs))) b ≡ true
unfolding summarise summary contains
summarise-open_time end symbol tf b c cs h = ground arith

summaries-open_time :
    (end symbol : ℕ) (tf : Timeframe) (g : Dict (List BaseMinuteCandle)) (b : ℕ) (bs : List ℕ)
    → contains (open_times (summarise end symbol tf b (or_empty (get g b)))) b ≡ true
    → contains bs b ≡ true
    → contains (open_times (summaries end symbol tf g bs)) b ≡ true
unfolding summaries contains
summaries-open_time end symbol tf g b [] h k = cc
summaries-open_time end symbol tf g b (x ∷ bs) h k =
    rw
      (contains-open_times (summarise end symbol tf x (or_empty (get g x)))
        (summaries end symbol tf g bs) b)
      (elim (Bool-cases (x == b)) [
        | inl e ↦ rw ((==_iff x b).0 e) (rw h refl)
        | inr n ↦ ground (arith, summaries-open_time end symbol tf g b bs h)
      ])

module _ (symbol : ℕ) (tf : Timeframe) (start end : ℕ) (base : List BaseMinuteCandle) where
  all_candles_complete :
      (b : ℕ) (c : BaseMinuteCandle) (cs : List BaseMinuteCandle)
      → IsBucket start end (timeframe_seconds tf) b
      → observed symbol tf start end base b ≡ c ∷ cs
      → All (λ x. x.last_provider_timestamp ≤ end) (c ∷ cs)
      → contains (open_times (all_candles symbol tf start end base)) b ≡ true
  unfolding all_candles
  all_candles_complete b c cs i e t =
      let g = grouping start end (timeframe_seconds tf) (sorted_by_time base) in
      let here : or_empty (get g b) ≡ c ∷ cs = get-observed symbol tf start end base b i.0 ∙ e in
      summaries-open_time end symbol tf g b (sorted_numbers (keys g))
        (rw here (summarise-open_time end symbol tf b c cs (last_in_time end symbol tf b c cs t)))
        (contains-sorted_numbers (keys g) b ∙ contains-keys g b ∙ present (get g b) here)
    where
      present : (o : Option (List BaseMinuteCandle)) → or_empty o ≡ c ∷ cs → is_some o ≡ true
      present none h = cc
      present (some xs) h = refl

ok_injective : (r s : CandleSeries) → ok r ≡ ok s → r ≡ s
ok_injective r s h = cc

-- A series that is returned for a positive limit up to 1000, a positive retention and an end with
-- a time zone has a candle at every whole interval inside its window that has observations, all of
-- them no later than its end.
pub aggregate_base_candles_complete :
    (symbol : ℕ) (tf : Timeframe) (limit : ℕ) (end : Datetime) (retention : ℕ)
    (base : List BaseMinuteCandle) (s : CandleSeries) (b : ℕ) (c : BaseMinuteCandle)
    (cs : List BaseMinuteCandle)
    → 1 ≤ limit
    → limit ≤ 1000
    → 1 ≤ retention
    → end.aware ≡ true
    → aggregate_base_candles symbol tf limit end retention base ≡ ok s
    → IsBucket s.period_start s.period_end (timeframe_seconds tf) b
    → observed symbol tf s.period_start s.period_end base b ≡ c ∷ cs
    → All (λ x. x.last_provider_timestamp ≤ s.period_end) (c ∷ cs)
    → contains (open_times s.candles) b ≡ true
aggregate_base_candles_complete symbol tf limit end retention base s b c cs h1 h2 h3 h4 e i o t =
    let (s', p, w, k, n) = aggregated symbol tf limit end retention base h1 h2 h3 h4 in
    let q : s' ≡ s = ok_injective s' s (sym p ∙ e) in
    subst (λ r. contains (open_times r.candles) b ≡ true) q
      (rw k (
        all_candles_complete symbol tf s'.period_start s'.period_end base b c cs
          (subst (λ r. IsBucket r.period_start r.period_end (timeframe_seconds tf) b) (sym q) i)
          (subst (λ r. observed symbol tf r.period_start r.period_end base b ≡ c ∷ cs) (sym q) o)
          (subst (λ r. All (λ x. x.last_provider_timestamp ≤ r.period_end) (c ∷ cs)) (sym q) t)))
