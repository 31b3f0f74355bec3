-- ===== src/Candles/Aggregate/Groups.antt =====
-- The first loop of `aggregate_base_candles` groups the candles by bucket, in order.
use mathlib.Core.List.{foldl, append_assoc, append-nil}
use mathlib.Core.Path.{◌≡⟨◌⟩◌, ◌∎}
use smart_market_data_gatewa.Prelude.{
  ℕ, ◌<◌, ◌≡◌, ◌∙◌, ap, false, ◌==◌, if◌then◌else◌, List, [], ◌∷◌, ◌++◌, arith, All, Distinct,
  Bool-cases, inl, inr,
}
use smart_market_data_gatewa.Prelude.Dict.{
  Dict, get, keys, get-put, keys-put-All, keys-put-Distinct,
}
use smart_market_data_gatewa.Candles.Base.{BaseMinuteCandle}
use smart_market_data_gatewa.Candles.Time.{floor_instant, floor_instant-floor_instant}
use smart_market_data_gatewa.Candles.Aggregate.{or_empty, bucket_of, outside, group, grouping}

module _ (start end interval_seconds : ℕ) where
  -- The candles of one bucket.
  unfoldable pub of_bucket : ℕ → List BaseMinuteCandle → List BaseMinuteCandle
  of_bucket b [] = []
  of_bucket b (c ∷ cs) =
      let rest = of_bucket b cs in
      if bucket_of start end interval_seconds c == b then c ∷ rest else rest

  abbrev kept : ℕ → List BaseMinuteCandle → List BaseMinuteCandle
  kept b cs = if outside start end interval_seconds b then [] else of_bucket b cs

  get-group :
      (d : Dict (List BaseMinuteCandle)) (c : BaseMinuteCandle) (b : ℕ)
      → or_empty (get (group start end interval_seconds d c) b)
        ≡ or_empty (get d b) ++ kept b (c ∷ [])
  unfolding group of_bucket
  get-group d c b =
      let bucket = bucket_of start end interval_seconds c in
      ground (
        arith,
        get-put d bucket b (or_empty (get d bucket) ++ c ∷ []),
        append-nil (or_empty (get d b)),
      )

  kept-cons :
      (b : ℕ) (c : BaseMinuteCandle) (cs : List BaseMinuteCandle)
      → kept b (c ∷ []) ++ kept b cs ≡ kept b (c ∷ cs)
  unfolding of_bucket
  kept-cons b c cs = ground arith

  get-foldl :
      (d : Dict (List BaseMinuteCandle)) (cs : List BaseMinuteCandle) (b : ℕ)
      → or_empty (get (foldl (group start end interval_seconds) d cs) b)
        ≡ or_empty (get d b) ++ kept b cs
  unfolding of_bucket
  get-foldl d [] b = ground (arith, append-nil (or_empty (get d b)))
  get-foldl d (c ∷ cs) b =
      or_empty (get (foldl (group start end interval_seconds) d (c ∷ cs)) b)
      ≡⟨ get-foldl (group start end interval_seconds d c) cs b ⟩
        or_empty (get (group start end interval_seconds d c) b) ++ kept b cs
      ≡⟨ ap (λ xs. xs ++ kept b cs) (get-group d c b) ⟩
        (or_empty (get d b) ++ kept b (c ∷ [])) ++ kept b cs
      ≡⟨ append_assoc (or_empty (get d b)) (kept b (c ∷ [])) (kept b cs)
        ∙ ap (◌++◌ (or_empty (get d b))) (kept-cons b c cs) ⟩
        or_empty (get d b) ++ kept b (c ∷ cs) ∎

  pub get-grouping :
      (cs : List BaseMinuteCandle) (b : ℕ)
      → or_empty (get (grouping start end interval_seconds cs) b)
        ≡ (if outside start end interval_seconds b then [] else of_bucket b cs)
  unfolding grouping get
  get-grouping cs b = get-foldl [] cs b

  -- A key is a bucket within the window.
  abbrev pub IsBucket : ℕ → Type 0
  IsBucket b =
      (outside start end interval_seconds b ≡ false) × (floor_instant b interval_seconds ≡ b)

  group-IsBucket :
      0 < interval_seconds
      → (d : Dict (List BaseMinuteCandle)) (c : BaseMinuteCandle) → All IsBucket (keys d)
      → All IsBucket (keys (group start end interval_seconds d c))
  unfolding group bucket_of
  group-IsBucket pos d c h =
      elim (Bool-cases
        (outside start end interval_seconds (floor_instant c.open_time interval_seconds))) [
          | inl out ↦ rw out h
          | inr inside ↦ rw inside (
              keys-put-All IsBucket d _ _
                (inside, floor_instant-floor_instant c.open_time interval_seconds pos) h)
        ]

  grouping-IsBucket_from :
      0 < interval_seconds
      → (d : Dict (List BaseMinuteCandle)) (cs : List BaseMinuteCandle) → All IsBucket (keys d)
      → All IsBucket (keys (foldl (group start end interval_seconds) d cs))
  grouping-IsBucket_from pos d [] h = h
  grouping-IsBucket_from pos d (c ∷ cs) h =
      grouping-IsBucket_from pos (group start end interval_seconds d c) cs
        (group-IsBucket pos d c h)

  pub grouping-IsBucket :
      0 < interval_seconds
      → (cs : List BaseMinuteCandle) → All IsBucket (keys (grouping start end interval_seconds cs))
  unfolding grouping
  grouping-IsBucket pos cs = grouping-IsBucket_from pos [] cs tt

  group-Distinct :
      (d : Dict (List BaseMinuteCandle)) (c : BaseMinuteCandle)
      → Distinct (keys d)
      → Distinct (keys (group start end interval_seconds d c))
  unfolding group
  group-Distinct d c h =
      elim (Bool-cases
        (outside start end interval_seconds (bucket_of start end interval_seconds c))) [
          | inl out ↦ rw out h
          | inr inside ↦ rw inside (keys-put-Distinct d _ _ h)
        ]

  grouping-Distinct_from :
      (d : Dict (List BaseMinuteCandle)) (cs : List BaseMinuteCandle)
      → Distinct (keys d)
      → Distinct (keys (foldl (group start end interval_seconds) d cs))
  grouping-Distinct_from d [] h = h
  grouping-Distinct_from d (c ∷ cs) h =
      grouping-Distinct_from (group start end interval_seconds d c) cs (group-Distinct d c h)

  pub grouping-Distinct :
      (cs : List BaseMinuteCandle) → Distinct (keys (grouping start end interval_seconds cs))
  unfolding grouping
  grouping-Distinct cs = grouping-Distinct_from [] cs tt
