-- ===== src/Subscriptions/Registry/Expiry.antt =====
-- What the clean-up finds of a subscription that has expired, and what a release spares.
use smart_market_data_gatewa.Prelude.{
  ℕ, ◌<◌, ◌≡◌, ◌∙◌, refl, true, false, ◌==◌, if◌then◌else◌, Option, none, some, List, [], ◌∷◌,
  arith, Bool-cases, inl, inr, ==_iff,
}
use smart_market_data_gatewa.Prelude.Text.{Text, text_eq_refl, has_text}
use smart_market_data_gatewa.Subscriptions.Server.{SortedSets, IsSortedSets, Sets, States, above}
use smart_market_data_gatewa.Subscriptions.Keys.{symbol_key}
use smart_market_data_gatewa.Subscriptions.Registry.{
  Registry, refresh_keys, refresh_metrics, release_after_grace, cleanup_key, cleanup_keys,
  cleanup_expired,
}

above_idem : (now : ℕ) (o : Option ℕ) → above now (above now o) ≡ above now o
above_idem now none = refl
above_idem now (some v) = ground arith

pub above-none : (now : ℕ) (o : Option ℕ) → o ≡ none → above now o ≡ none
above-none now o h = rw h refl

module _ {Z C U : Type 0} (z : SortedSets Z) (c : Sets C) (u : States U)
    (sets : IsSortedSets z) where
  -- The score of a member after the sets of some keys were cleared of what has expired.
  pub zscore-refresh_keys :
      (now : ℕ) (keys : List Text) (s : Z) (k : Text) (m : ℕ)
      → z.zscore (refresh_keys z c u now keys s) k m
        ≡ (if has_text keys k then above now (z.zscore s k m) else z.zscore s k m)
  unfolding refresh_keys has_text
  zscore-refresh_keys now [] s k m = refl
  zscore-refresh_keys now (key ∷ keys) s k m =
      zscore-refresh_keys now keys (z.zremrangebyscore s key now) k m
      ∙ ground (arith, sets.zscore-zremrangebyscore s key now k m, above_idem now (z.zscore s k m))

  -- No member is left.
  abbrev pub IsEmpty : Z → Type 0
  IsEmpty s = (k : Text) (m : ℕ) → z.zscore s k m ≡ none

  refresh-IsEmpty :
      (now : ℕ) (r : Registry Z C U)
      → ((k : Text) (m : ℕ) → above now (z.zscore r.sorted k m) ≡ none)
      → IsEmpty (refresh_metrics z c u now r).sorted
  refresh-IsEmpty now r h k m =
      zscore-refresh_keys now (z.scan r.sorted) r.sorted k m ∙ missing (z.zscore r.sorted k m) refl
    where
      missing :
          (o : Option ℕ)
          → z.zscore r.sorted k m ≡ o
          → (if has_text (z.scan r.sorted) k
              then above now (z.zscore r.sorted k m)
              else z.zscore r.sorted k m)
            ≡ none
      missing none e = ground (arith, e)
      missing (some v) e = ground (arith, sets.scan_full r.sorted k m v e, h k m)

  cleanup_key-IsEmpty :
      (now : ℕ) (key : Text) (r : Registry Z C U)
      → IsEmpty r.sorted
      → ((cleanup_key z c u now key r).release_tasks ≡ r.release_tasks)
        × IsEmpty (cleanup_key z c u now key r).sorted
  unfolding cleanup_key
  cleanup_key-IsEmpty now key r h =
      let zero : (z.zcard r.sorted key == 0) ≡ true =
        (==_iff (z.zcard r.sorted key) 0).1 ((sets.zcard_zero r.sorted key).1 (h key)) in
      (
        rw zero refl,
        rw zero (λ k m. ground (arith, sets.zscore-zremrangebyscore r.sorted key now k m, h k m)),
      )

  cleanup_keys-IsEmpty :
      (now : ℕ) (keys : List Text) (r : Registry Z C U)
      → IsEmpty r.sorted
      → (cleanup_keys z c u now keys r).release_tasks ≡ r.release_tasks
  unfolding cleanup_keys
  cleanup_keys-IsEmpty now [] r h = refl
  cleanup_keys-IsEmpty now (key ∷ keys) r h =
      let (same, empty) = cleanup_key-IsEmpty now key r h in
      cleanup_keys-IsEmpty now keys (cleanup_key z c u now key r) empty ∙ same

  -- If `refresh_metrics` runs when every membership has expired, and it runs in each subscribe,
  -- unsubscribe and release, then no later clean-up schedules a release: what has expired in the
  -- meantime is never released.
  pub cleanup_expired-refresh_metrics :
      (now later : ℕ) (r : Registry Z C U)
      → ((k : Text) (m : ℕ) → above now (z.zscore r.sorted k m) ≡ none)
      → (cleanup_expired z c u later (refresh_metrics z c u now r)).release_tasks ≡ r.release_tasks
  unfolding cleanup_expired
  cleanup_expired-refresh_metrics now later r h =
      cleanup_keys-IsEmpty later _ (refresh_metrics z c u now r) (refresh-IsEmpty now r h)

  live_card :
      (s : Z) (k : Text) (now m v : ℕ)
      → z.zscore s k m ≡ some v
      → now < v
      → (z.zcard (z.zremrangebyscore s k now) k == 0) ≡ false
  live_card s k now m v e h = elim (Bool-cases (z.zcard (z.zremrangebyscore s k now) k == 0)) [
    | inr n ↦ n
    | inl y ↦
        let gone = (sets.zcard_zero (z.zremrangebyscore s k now) k).0 ((==_iff _ 0).0 y) m in
        absurd (ground (arith, gone, sets.zscore-zremrangebyscore s k now k m, text_eq_refl k, e))
  ]

  -- A release leaves the state and the stream as they are if a connection has a subscription of the
  -- symbol that has not expired.
  pub release_after_grace_live :
      (symbol : Text) (now m v : ℕ) (r : Registry Z C U)
      → z.zscore r.sorted (symbol_key symbol) m ≡ some v
      → now < v
      → (release_after_grace z c u symbol now r).states ≡ r.states
  unfolding release_after_grace
  release_after_grace_live symbol now m v r e h =
      rw (live_card r.sorted (symbol_key symbol) now m v e h) refl
