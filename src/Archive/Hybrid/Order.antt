-- ===== src/Archive/Hybrid/Order.antt =====
-- The order and the number of the candles of a combined history.
use smart_market_data_gatewa.Prelude.{
  ℕ, zero, suc, ◌+◌, ◌-◌, ◌≤◌, ◌<◌, ◌≡◌, ◌∙◌, sym, refl, subst, Bool, true, false, ◌||◌, ◌==◌, ltb,
  if◌then◌else◌, Option, none, some, List, [], ◌∷◌, ◌++◌, length, length-drop, drop, arith, All,
  Distinct, Ascending, sorted_numbers, sorted_numbers-Ascending, Bool-cases, inl, inr, ==_iff,
}
use smart_market_data_gatewa.Prelude.Dict.{Dict, get, put, keys, get-put, keys-put-Distinct}
use smart_market_data_gatewa.Prelude.Outcome.{ok}
use smart_market_data_gatewa.Domain.Evidence.{Datetime}
use smart_market_data_gatewa.Candles.Time.{
  Timeframe, seconds, timeframe_seconds, floor_instant, floor_time,
}
use smart_market_data_gatewa.Candles.Aggregate.{Candle, CandleSeries, latest}
use smart_market_data_gatewa.Candles.Aggregate.Series.{open_times}
use smart_market_data_gatewa.Archive.Hybrid.{
  keep, by_time, overlay_one, overlay, listed, in_order, Config, merged_candles, ceil_timeframe,
  combined_series, combined,
}

-- A candle is kept under its own time.
KeyedAt : ℕ → Option Candle → Type 0
KeyedAt t none = Unit
KeyedAt t (some c) = c.open_time ≡ t

abbrev IsKeyed : Dict Candle → Type 0
IsKeyed d = (t : ℕ) → KeyedAt t (get d t)

put-KeyedAt :
    (t k : ℕ) (c : Candle) (o : Option Candle)
    → c.open_time ≡ k
    → KeyedAt t o
    → KeyedAt t (if k == t then some c else o)
unfolding KeyedAt
put-KeyedAt t k c o e h = elim (Bool-cases (k == t)) [
  | inl q ↦ rw q (e ∙ (==_iff k t).0 q)
  | inr n ↦ rw n h
]

put-IsKeyed : (d : Dict Candle) (c : Candle) → IsKeyed d → IsKeyed (put d c.open_time c)
put-IsKeyed d c h t =
    subst (KeyedAt t) (sym (get-put d c.open_time t c))
      (put-KeyedAt t c.open_time c (get d t) refl (h t))

either-IsKeyed :
    (b : Bool) (d e : Dict Candle) → IsKeyed d → IsKeyed e → IsKeyed (if b then d else e)
either-IsKeyed true d e h k = h
either-IsKeyed false d e h k = k

by_time-IsKeyed : (d : Dict Candle) (cs : List Candle) → IsKeyed d → IsKeyed (by_time d cs)
unfolding by_time keep
by_time-IsKeyed d [] h = h
by_time-IsKeyed d (c ∷ cs) h = by_time-IsKeyed (put d c.open_time c) cs (put-IsKeyed d c h)

overlay-IsKeyed :
    (start : ℕ) (d : Dict Candle) (cs : List Candle) → IsKeyed d → IsKeyed (overlay start d cs)
unfolding overlay overlay_one
overlay-IsKeyed start d [] h = h
overlay-IsKeyed start d (c ∷ cs) h =
    overlay-IsKeyed start (overlay_one start d c) cs (either-IsKeyed _ _ _ (put-IsKeyed d c h) h)

either-Distinct :
    (b : Bool) (d e : Dict Candle)
    → Distinct (keys d)
    → Distinct (keys e)
    → Distinct (keys (if b then d else e))
either-Distinct true d e h k = h
either-Distinct false d e h k = k

by_time-Distinct :
    (d : Dict Candle) (cs : List Candle) → Distinct (keys d) → Distinct (keys (by_time d cs))
unfolding by_time keep
by_time-Distinct d [] h = h
by_time-Distinct d (c ∷ cs) h =
    by_time-Distinct (put d c.open_time c) cs (keys-put-Distinct d c.open_time c h)

overlay-Distinct :
    (start : ℕ) (d : Dict Candle) (cs : List Candle)
    → Distinct (keys d)
    → Distinct (keys (overlay start d cs))
unfolding overlay overlay_one
overlay-Distinct start d [] h = h
overlay-Distinct start d (c ∷ cs) h =
    overlay-Distinct start (overlay_one start d c) cs
      (either-Distinct _ _ _ (keys-put-Distinct d c.open_time c h) h)

-- Candles at their own times, in the order of those times.
above :
    (x : ℕ) (d : Dict Candle) (ts : List ℕ)
    → IsKeyed d
    → All (λ y. x < y) ts
    → All (λ y. x < y) (open_times (in_order d ts))
unfolding in_order KeyedAt
above x d [] k h = tt
above x d (t ∷ ts) k h = one (get d t) (k t) (above x d ts k h.1)
  where
    one :
        (o : Option Candle)
        → KeyedAt t o
        → All (λ y. x < y) (open_times (in_order d ts))
        → All (λ y. x < y) (open_times (listed o ++ in_order d ts))
    one none q rest = rest
    one (some c) q rest = (subst (λ y. x < y) (sym q) h.0, rest)

in_order-Ascending :
    (d : Dict Candle) (ts : List ℕ)
    → IsKeyed d
    → Ascending ts
    → Ascending (open_times (in_order d ts))
unfolding in_order KeyedAt
in_order-Ascending d [] k h = tt
in_order-Ascending d (t ∷ ts) k h = one (get d t) (k t) (in_order-Ascending d ts k h.1)
  where
    one :
        (o : Option Candle)
        → KeyedAt t o
        → Ascending (open_times (in_order d ts))
        → Ascending (open_times (listed o ++ in_order d ts))
    one none q rest = rest
    one (some c) q rest = (
      subst (λ x. All (λ y. x < y) (open_times (in_order d ts))) (sym q) (above t d ts k h.0),
      rest,
    )

drop-Ascending :
    (n : ℕ) (cs : List Candle) → Ascending (open_times cs) → Ascending (open_times (drop n cs))
drop-Ascending zero cs h = h
drop-Ascending (suc n) [] h = tt
drop-Ascending (suc n) (c ∷ cs) h = drop-Ascending n cs h.1

no_key : IsKeyed []
unfolding get KeyedAt
no_key t = tt

merged_candles-Ascending :
    (start limit : ℕ) (hot archive : CandleSeries)
    → Ascending (
        open_times (
          latest limit (
            in_order
              (merged_candles start hot archive)
              (sorted_numbers (keys (merged_candles start hot archive))))))
merged_candles-Ascending start limit hot archive =
    let d = merged_candles start hot archive in
    drop-Ascending _ (in_order d (sorted_numbers (keys d))) (
      in_order-Ascending d (sorted_numbers (keys d))
        (overlay-IsKeyed start (by_time [] archive.candles) hot.candles
          (by_time-IsKeyed [] archive.candles no_key))
        (sorted_numbers-Ascending (keys d) (
          overlay-Distinct start (by_time [] archive.candles) hot.candles
            (by_time-Distinct [] archive.candles tt))))

ceil_timeframe_total :
    (value : Datetime) (tf : Timeframe)
    → value.aware ≡ true
    → (start : ℕ) × (ceil_timeframe value tf ≡ ok start)
unfolding ceil_timeframe floor_time
ceil_timeframe_total value tf h =
    let bucket = floor_instant value.micros (timeframe_seconds tf) in
    (if ltb bucket value.micros then bucket + seconds (timeframe_seconds tf) else bucket, rw h refl)

length-latest : (limit : ℕ) (cs : List Candle) → length (latest limit cs) ≤ limit
length-latest limit cs = omega (arith, length-drop (length cs - limit) cs)

combined_ok :
    (config : Config) (tf : Timeframe) (limit : ℕ) (now : Datetime) (hot archive : CandleSeries)
    → 1 ≤ limit
    → limit ≤ 1000
    → 1 ≤ config.candle_archive_retention_seconds
    → now.aware ≡ true
    → (start : ℕ) × (combined config tf limit now hot archive
        ≡ ok (combined_series config tf limit hot archive start))
unfolding combined
combined_ok config tf limit now hot archive h1 h2 h3 h4 =
    let (start, e) =
      ceil_timeframe_total
        (record now { micros = now.micros - seconds config.candle_history_retention_seconds }) tf
        h4 in
    let f : (ltb limit 1 || ltb 1000 limit || ltb config.candle_archive_retention_seconds 1)
        ≡ false =
      ground arith in
    (start, rw (e, f) refl)

-- For a limit from 1 to 1000, a positive retention and an aware clock, two layers that answered
-- combine to a series of at most `limit` candles, counted, in ascending order of time.
pub combined-Ascending :
    (config : Config) (tf : Timeframe) (limit : ℕ) (now : Datetime) (hot archive : CandleSeries)
    → 1 ≤ limit
    → limit ≤ 1000
    → 1 ≤ config.candle_archive_retention_seconds
    → now.aware ≡ true
    → (s : CandleSeries) × (combined config tf limit now hot archive ≡ ok s)
      × Ascending (open_times s.candles)
      × (length s.candles ≤ limit)
      × (s.returned_count ≡ length s.candles)
combined-Ascending config tf limit now hot archive h1 h2 h3 h4 =
    let (start, e) = combined_ok config tf limit now hot archive h1 h2 h3 h4 in
    (
      combined_series config tf limit hot archive start,
      e,
      merged_candles-Ascending start limit hot archive,
      length-latest limit _,
      refl,
    )
