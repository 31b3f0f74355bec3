-- ===== src/Candles/Aggregate/Summary.antt =====
-- What the candle of a bucket says of its observations.
use smart_market_data_gatewa.Prelude.{
  ℕ, ◌≤◌, ◌≡◌, refl, true, List, [], ◌∷◌, map, min, max, arith, contains, All,
}
use smart_market_data_gatewa.Candles.Base.{BaseMinuteCandle}
use smart_market_data_gatewa.Candles.Time.{Timeframe}
use smart_market_data_gatewa.Candles.Soundness.{IsSound}
use smart_market_data_gatewa.Candles.Aggregate.{Candle, max_of, min_of, sum_of, last_of, summary}

module _ (f : BaseMinuteCandle → ℕ) where
  max_of-upper :
      (best : ℕ) (cs : List BaseMinuteCandle)
      → (best ≤ max_of f best cs) × All (λ c. f c ≤ max_of f best cs) cs
  max_of-upper best [] = (omega arith, tt)
  max_of-upper best (c ∷ cs) =
      let (b, a) = max_of-upper (max best (f c)) cs in (omega arith, (omega arith, a))

  min_of-lower :
      (best : ℕ) (cs : List BaseMinuteCandle)
      → (min_of f best cs ≤ best) × All (λ c. min_of f best cs ≤ f c) cs
  min_of-lower best [] = (omega arith, tt)
  min_of-lower best (c ∷ cs) =
      let (b, a) = min_of-lower (min best (f c)) cs in (omega arith, (omega arith, a))

  max_of-attained :
      (best : ℕ) (cs : List BaseMinuteCandle) → contains (best ∷ map f cs) (max_of f best cs) ≡ true
  unfolding contains
  max_of-attained best [] = ground arith
  max_of-attained best (c ∷ cs) = ground (arith, max_of-attained (max best (f c)) cs)

  min_of-attained :
      (best : ℕ) (cs : List BaseMinuteCandle) → contains (best ∷ map f cs) (min_of f best cs) ≡ true
  unfolding contains
  min_of-attained best [] = ground arith
  min_of-attained best (c ∷ cs) = ground (arith, min_of-attained (min best (f c)) cs)

-- The extremes bound every observation and are each the value of one; the counts add up; the first
-- observation opens and the last one closes.
pub record IsSummary (k : Candle) (c : BaseMinuteCandle) (cs : List BaseMinuteCandle) : Type 0 where
  pub highest : All (λ x. x.high ≤ k.high) (c ∷ cs)
  pub lowest : All (λ x. k.low ≤ x.low) (c ∷ cs)
  pub earliest : All (λ x. k.first_observation ≤ x.first_provider_timestamp) (c ∷ cs)
  pub latest : All (λ x. x.last_provider_timestamp ≤ k.last_observation) (c ∷ cs)
  pub high_seen : contains (map (λ x. x.high) (c ∷ cs)) k.high ≡ true
  pub low_seen : contains (map (λ x. x.low) (c ∷ cs)) k.low ≡ true
  pub first_seen :
      contains (map (λ x. x.first_provider_timestamp) (c ∷ cs)) k.first_observation ≡ true
  pub last_seen : contains (map (λ x. x.last_provider_timestamp) (c ∷ cs)) k.last_observation ≡ true
  pub counted : k.activity_count ≡ sum_of (λ x. x.activity_count) (c ∷ cs)
  pub opens : k.open_price ≡ c.open_price
  pub closes : k.close_price ≡ (last_of c cs).close_price

pub summary-IsSummary :
    (symbol : ℕ) (tf : Timeframe) (b : ℕ) (c : BaseMinuteCandle) (cs : List BaseMinuteCandle)
    → IsSummary (summary symbol tf b c cs) c cs
unfolding summary
summary-IsSummary symbol tf b c cs = record {
  highest = max_of-upper (λ x. x.high) c.high cs;
  lowest = min_of-lower (λ x. x.low) c.low cs;
  earliest = min_of-lower (λ x. x.first_provider_timestamp) c.first_provider_timestamp cs;
  latest = max_of-upper (λ x. x.last_provider_timestamp) c.last_provider_timestamp cs;
  high_seen = max_of-attained (λ x. x.high) c.high cs;
  low_seen = min_of-attained (λ x. x.low) c.low cs;
  first_seen = min_of-attained (λ x. x.first_provider_timestamp) c.first_provider_timestamp cs;
  last_seen = max_of-attained (λ x. x.last_provider_timestamp) c.last_provider_timestamp cs;
  counted = refl;
  opens = refl;
  closes = refl;
}

All-last_of :
    (P : BaseMinuteCandle → Type 0) (c : BaseMinuteCandle) (cs : List BaseMinuteCandle)
    → All P (c ∷ cs)
    → P (last_of c cs)
All-last_of P c [] h = h.0
All-last_of P c (d ∷ cs) h = All-last_of P d cs h.1

-- A summary of sound candles is sound in turn.
pub IsSummary-bounds :
    (k : Candle) (c : BaseMinuteCandle) (cs : List BaseMinuteCandle)
    → All IsSound (c ∷ cs)
    → IsSummary k c cs
    → (k.low ≤ k.open_price)
      × (k.open_price ≤ k.high)
      × (k.low ≤ k.close_price)
      × (k.close_price ≤ k.high)
      × (1 ≤ k.activity_count)
      × (k.first_observation ≤ k.last_observation)
IsSummary-bounds k c cs s y =
    let sound = All-last_of IsSound c cs s in
    let top = All-last_of (λ x. x.high ≤ k.high) c cs y.highest in
    let bottom = All-last_of (λ x. k.low ≤ x.low) c cs y.lowest in
    let c1 = s.0.low-open in
    let c2 = s.0.open-high in
    let c3 = sound.low-close in
    let c4 = sound.close-high in
    let c5 = s.0.counted in
    let c6 = s.0.ordered in omega (arith, y.opens, y.closes, y.counted, c1, c2, c3, c4, c5, c6)
