-- ===== src/Archive/Hybrid/Overlay.antt =====
-- Which candles a combined history holds.
use smart_market_data_gatewa.Prelude.{
  ℕ, ◌≡◌, ◌∙◌, refl, ap, false, ◌==◌, leb, if◌then◌else◌, is_some, Option, none, some, List, [],
  ◌∷◌, arith, Distinct, contains, Bool-cases, inl, inr,
}
use smart_market_data_gatewa.Prelude.Dict.{Dict, get, put, get-put}
use smart_market_data_gatewa.Candles.Aggregate.{Candle, CandleSeries}
use smart_market_data_gatewa.Candles.Aggregate.Series.{open_times}
use smart_market_data_gatewa.Archive.Hybrid.{keep, by_time, overlay_one, overlay, merged_candles}

-- The candle at a time.
pub at : List Candle → ℕ → Option Candle
at [] t = none
at (c ∷ cs) t = let rest = at cs t in if c.open_time == t then some c else rest

-- The hot candle counts where there is no archived one, or from the start of the hot layer on.
abbrev pub preferred : ℕ → ℕ → Option Candle → Option Candle → Option Candle
preferred start t none archived = archived
preferred start t (some hot) none = some hot
preferred start t (some hot) (some archived) = if leb start t then some hot else some archived

at-none : (cs : List Candle) (t : ℕ) → contains (open_times cs) t ≡ false → at cs t ≡ none
unfolding at contains
at-none [] t h = refl
at-none (c ∷ cs) t h = ground (arith, at-none cs t)

get-by_time :
    (d : Dict Candle) (cs : List Candle) (t : ℕ)
    → Distinct (open_times cs)
    → get (by_time d cs) t ≡ (if is_some (at cs t) then at cs t else get d t)
unfolding by_time keep at
get-by_time d [] t h = refl
get-by_time d (c ∷ cs) t (n, h) = elim (Bool-cases (c.open_time == t)) [
  | inl e ↦ ground (
    arith,
    get-by_time (put d c.open_time c) cs t h,
    get-put d c.open_time t c,
    at-none cs c.open_time n,
  )
  | inr m ↦ ground (arith, get-by_time (put d c.open_time c) cs t h, get-put d c.open_time t c, m)
]

or_none : (o : Option Candle) → (if is_some o then o else none) ≡ o
or_none none = refl
or_none (some c) = refl

overlaid_step :
    (start : ℕ) (d : Dict Candle) (c : Candle) (cs : List Candle) (t : ℕ)
    → contains (open_times cs) c.open_time ≡ false
    → preferred start t (at cs t) (get (overlay_one start d c) t)
      ≡ preferred start t (at (c ∷ cs) t) (get d t)
unfolding overlay_one at
overlaid_step start d c cs t n = elim (Bool-cases (c.open_time == t)) [
  | inl e ↦ ground (arith, get-put d c.open_time t c, at-none cs c.open_time n)
  | inr m ↦ ground (arith, get-put d c.open_time t c, m)
]

get-overlay :
    (start : ℕ) (d : Dict Candle) (cs : List Candle) (t : ℕ)
    → Distinct (open_times cs)
    → get (overlay start d cs) t ≡ preferred start t (at cs t) (get d t)
unfolding overlay overlay_one at
get-overlay start d [] t h = refl
get-overlay start d (c ∷ cs) t (n, h) =
    get-overlay start (overlay_one start d c) cs t h ∙ overlaid_step start d c cs t n

-- In the combined history of two layers with one candle at each time, the candle at a time is the
-- hot one if the time is not before the start of the hot layer or the archive has none there, and
-- else the archived one.
pub get-merged_candles :
    (start : ℕ) (hot archive : CandleSeries) (t : ℕ)
    → Distinct (open_times hot.candles)
    → Distinct (open_times archive.candles)
    → get (merged_candles start hot archive) t
      ≡ preferred start t (at hot.candles t) (at archive.candles t)
unfolding get
get-merged_candles start hot archive t h a =
    get-overlay start (by_time [] archive.candles) hot.candles t h
    ∙ ap (preferred start t (at hot.candles t))
        (get-by_time [] archive.candles t a ∙ or_none (at archive.candles t))
