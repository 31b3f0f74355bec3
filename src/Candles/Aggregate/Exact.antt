-- ===== src/Candles/Aggregate/Exact.antt =====
-- What `aggregate_base_candles` returns: one candle for each complete bucket of the window.
use smart_market_data_gatewa.Prelude.{
  ℕ, ◌+◌, ◌-◌, ◌≤◌, ◌≡◌, refl, ◌∙◌, true, false, List, [], ◌∷◌, arith, All, length, Bool-cases, inl,
  inr, Ascending, sorted_numbers, sorted_numbers-All, sorted_numbers-Ascending, ltb, ltb→ge,
}
use smart_market_data_gatewa.Prelude.Dict.{get, keys}
use smart_market_data_gatewa.Prelude.Outcome.{ok}
use smart_market_data_gatewa.Domain.Evidence.{Datetime}
use smart_market_data_gatewa.Candles.Base.{BaseMinuteCandle}
use smart_market_data_gatewa.Candles.Time.{
  Timeframe, timeframe_seconds, timeframe_seconds_pos, seconds, floor_instant, history_window,
  history_window_total,
}
use smart_market_data_gatewa.Candles.Aggregate.{
  Candle, CandleSeries, or_empty, grouping, outside, sorted_by_time, summary, summarise,
  all_candles, latest, aggregate_base_candles, quotes_only, empty_omitted, closed_only,
}
use smart_market_data_gatewa.Candles.Aggregate.Groups.{
  of_bucket, get-grouping, IsBucket, grouping-IsBucket, grouping-Distinct,
}
use smart_market_data_gatewa.Candles.Aggregate.Buckets.{buckets-le-limit, inside_bounds}
use smart_market_data_gatewa.Candles.Aggregate.Summary.{IsSummary, summary-IsSummary}
use smart_market_data_gatewa.Candles.Aggregate.Series.{
  length-summaries, summaries-All, summaries-Ascending, open_times,
}

module _ (symbol : ℕ) (tf : Timeframe) (start end : ℕ) (base : List BaseMinuteCandle) where
  -- The observations of a bucket, in the order of time.
  abbrev pub observed : ℕ → List BaseMinuteCandle
  observed b = of_bucket start end (timeframe_seconds tf) b (sorted_by_time base)

-- A candle of the series: a whole interval within the window that sums up all its observations.
pub record IsExact (symbol : ℕ) (tf : Timeframe) (start end : ℕ) (base : List BaseMinuteCandle)
    (k : Candle) : Type 0 where
  pub started : start ≤ k.open_time
  pub ended : k.close_time ≤ end
  pub whole : k.close_time ≡ k.open_time + seconds (timeframe_seconds tf)
  pub aligned : floor_instant k.open_time (timeframe_seconds tf) ≡ k.open_time
  pub timely : k.last_observation ≤ end
  pub first : BaseMinuteCandle
  pub others : List BaseMinuteCandle
  pub members : observed symbol tf start end base k.open_time ≡ first ∷ others
  pub sums_up : IsSummary k first others

module _ (symbol : ℕ) (tf : Timeframe) (start end : ℕ) (base : List BaseMinuteCandle) where
  summarise-IsExact :
      (b : ℕ) (obs : List BaseMinuteCandle)
      → observed symbol tf start end base b ≡ obs
      → IsBucket start end (timeframe_seconds tf) b
      → All (IsExact symbol tf start end base) (summarise end symbol tf b obs)
  unfolding summarise
  summarise-IsExact b [] e i = tt
  summarise-IsExact b (c ∷ cs) e i =
      elim (Bool-cases (ltb end (summary symbol tf b c cs).last_observation)) [
        | inl late ↦ rw late tt
        | inr timely ↦ rw timely (exact timely, tt)
      ]
    where
      exact :
          ltb end (summary symbol tf b c cs).last_observation ≡ false
          → IsExact symbol tf start end base (summary symbol tf b c cs)
      exact timely =
          let bounds = inside_bounds start end (timeframe_seconds tf) b i.0 in
          record {
            started = unfold summary in bounds.0;
            ended = unfold summary in bounds.1;
            whole = unfold summary in refl;
            aligned = unfold summary in i.1;
            timely = ltb→ge end (summary symbol tf b c cs).last_observation timely;
            first = c;
            others = cs;
            members = unfold summary in e;
            sums_up = summary-IsSummary symbol tf b c cs;
          }

  -- The grouped observations of a bucket of the window.
  pub get-observed :
      (b : ℕ)
      → outside start end (timeframe_seconds tf) b ≡ false
      → or_empty (get (grouping start end (timeframe_seconds tf) (sorted_by_time base)) b)
        ≡ observed symbol tf start end base b
  get-observed b o =
      get-grouping start end (timeframe_seconds tf) (sorted_by_time base) b ∙ rw o refl

  all-IsExact :
      (bs : List ℕ)
      → All (IsBucket start end (timeframe_seconds tf)) bs
      → All
          (λ b. All (IsExact symbol tf start end base) (
            summarise end symbol tf b
              (or_empty (get (grouping start end (timeframe_seconds tf) (sorted_by_time base)) b))))
          bs
  all-IsExact [] h = tt
  all-IsExact (b ∷ bs) h = (
    rw (get-observed b h.0.0) (summarise-IsExact b (observed symbol tf start end base b) refl h.0),
    all-IsExact bs h.1,
  )

  abbrev buckets : List ℕ
  buckets = sorted_numbers (keys (grouping start end (timeframe_seconds tf) (sorted_by_time base)))

  buckets-IsBucket : All (IsBucket start end (timeframe_seconds tf)) buckets
  buckets-IsBucket = sorted_numbers-All _ _ (
      grouping-IsBucket start end (timeframe_seconds tf) (timeframe_seconds_pos tf)
        (sorted_by_time base))

  buckets-Ascending : Ascending buckets
  buckets-Ascending =
      sorted_numbers-Ascending _
        (grouping-Distinct start end (timeframe_seconds tf) (sorted_by_time base))

  all_candles-IsExact :
      All (IsExact symbol tf start end base) (all_candles symbol tf start end base)
  unfolding all_candles
  all_candles-IsExact =
      summaries-All end symbol tf _ (IsExact symbol tf start end base) buckets
        (all-IsExact buckets buckets-IsBucket)

  all_candles-Ascending : Ascending (open_times (all_candles symbol tf start end base))
  unfolding all_candles
  all_candles-Ascending = summaries-Ascending end symbol tf _ buckets buckets-Ascending

-- The window is never short of room: the slice to `limit` candles drops none.
latest-all_candles :
    (symbol : ℕ) (tf : Timeframe) (limit : ℕ) (end : Datetime) (base : List BaseMinuteCandle)
    (w : ℕ × ℕ)
    → history_window tf limit end ≡ ok w
    → length (all_candles symbol tf w.0 w.1 base) ≤ limit
unfolding all_candles
latest-all_candles symbol tf limit end base w h = omega (
  arith,
  length-summaries w.1 symbol tf (grouping w.0 w.1 (timeframe_seconds tf) (sorted_by_time base))
      (sorted_numbers (keys (grouping w.0 w.1 (timeframe_seconds tf) (sorted_by_time base)))),
  buckets-le-limit tf limit end w (buckets symbol tf w.0 w.1 base) h
      (buckets-IsBucket symbol tf w.0 w.1 base) (buckets-Ascending symbol tf w.0 w.1 base),
)

latest_all : (limit : ℕ) (ks : List Candle) → length ks ≤ limit → latest limit ks ≡ ks
latest_all limit ks h = let e : length ks - limit ≡ 0 = omega arith in rw e refl

-- The call as a whole: its window, its refusals, and the candles it returns.
pub aggregated :
    (symbol : ℕ) (tf : Timeframe) (limit : ℕ) (end : Datetime) (retention : ℕ)
    (base : List BaseMinuteCandle)
    → 1 ≤ limit
    → limit ≤ 1000
    → 1 ≤ retention
    → end.aware ≡ true
    → (s : CandleSeries) × (aggregate_base_candles symbol tf limit end retention base ≡ ok s)
      × (history_window tf limit end ≡ ok (s.period_start, s.period_end))
      × (s.candles ≡ all_candles symbol tf s.period_start s.period_end base)
      × (s.returned_count ≡ length s.candles)
unfolding aggregate_base_candles
aggregated symbol tf limit end retention base h1 h2 h3 h4 =
    let (start, p) = history_window_total tf limit end h1 h4 in
    let fits = latest-all_candles symbol tf limit end base (start, end.micros) p in
    let all = latest_all limit (all_candles symbol tf start end.micros base) fits in
    (
      record {
        symbol = symbol;
        timeframe = tf;
        requested_limit = limit;
        returned_count = length (latest limit (all_candles symbol tf start end.micros base));
        retention_seconds = retention;
        period_start = start;
        period_end = end.micros;
        candles = latest limit (all_candles symbol tf start end.micros base);
        warnings = quotes_only ∷ empty_omitted ∷ closed_only ∷ [];
      },
      rw p (ground arith),
      p,
      all,
      refl,
    )

-- For a positive limit up to 1000, a positive retention and an end with a time zone, a series is
-- returned that counts its candles, at most `limit`, in ascending order of time; each of them sums
-- up all the observations of one whole interval within the window.
pub aggregate_base_candles-IsExact :
    (symbol : ℕ) (tf : Timeframe) (limit : ℕ) (end : Datetime) (retention : ℕ)
    (base : List BaseMinuteCandle)
    → 1 ≤ limit
    → limit ≤ 1000
    → 1 ≤ retention
    → end.aware ≡ true
    → (s : CandleSeries) × (aggregate_base_candles symbol tf limit end retention base ≡ ok s)
      × All (IsExact symbol tf s.period_start s.period_end base) s.candles
      × Ascending (open_times s.candles)
      × (length s.candles ≤ limit)
      × (s.returned_count ≡ length s.candles)
aggregate_base_candles-IsExact symbol tf limit end retention base h1 h2 h3 h4 =
    let (s, p, w, c, n) = aggregated symbol tf limit end retention base h1 h2 h3 h4 in
    (
      s,
      p,
      rw c (all_candles-IsExact symbol tf s.period_start s.period_end base),
      rw c (all_candles-Ascending symbol tf s.period_start s.period_end base),
      rw c (latest-all_candles symbol tf limit end base (s.period_start, s.period_end) w),
      n,
    )
