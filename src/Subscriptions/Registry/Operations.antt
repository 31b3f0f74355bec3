-- ===== src/Subscriptions/Registry/Operations.antt =====
-- Each operation but the heartbeat keeps every subscription covered.
use smart_market_data_gatewa.Prelude.{
  ℕ, ◌≡◌, ◌∙◌, refl, Bool, false, ◌&&◌, not, ◌==◌, some, List, [], ◌∷◌, arith, Bool-cases, inl, inr,
  ==_iff,
}
use smart_market_data_gatewa.Prelude.Text.{Text, text_eq, text_eq→eq, upper, sorted_texts}
use smart_market_data_gatewa.Collector.{Action}
use smart_market_data_gatewa.Subscriptions.Server.{SortedSets, IsSortedSets, Sets, States, IsStates}
use smart_market_data_gatewa.Subscriptions.Keys.{symbol_key, state_key, text_eq-state_key}
use smart_market_data_gatewa.Subscriptions.Registry.{
  Registry, is_active, released, subscribe_all, refresh_metrics, unsubscribe_symbol,
  unsubscribe_all, unsubscribe, left, release_after_grace, cleanup_key, cleanup_keys,
}
use smart_market_data_gatewa.Subscriptions.Registry.Covered.{
  IsCovered, Within, Within-trans, purged_Within, removed_Within, refreshed_Within, shrunk,
  subscribe_symbol-IsCovered,
}

module _ {Z C U : Type 0} (z : SortedSets Z) (c : Sets C) (u : States U) (sets : IsSortedSets z)
    (redis : IsStates u) where
  pub subscribe_all-IsCovered :
      (connection now expires_at : ℕ) (symbols added : List Text) (r : Registry Z C U)
      → IsCovered z c u r
      → IsCovered z c u (subscribe_all z c u connection now expires_at symbols added r).0
  unfolding subscribe_all
  subscribe_all-IsCovered connection now expires_at [] added r h = h
  subscribe_all-IsCovered connection now expires_at (symbol ∷ symbols) added r h =
      subscribe_all-IsCovered connection now expires_at symbols _ _
        (subscribe_symbol-IsCovered z c u sets redis connection now expires_at (upper symbol) r h)

  pub refresh-IsCovered :
      (now : ℕ) (r : Registry Z C U)
      → IsCovered z c u r
      → IsCovered z c u (refresh_metrics z c u now r)
  refresh-IsCovered now r h =
      shrunk z c u sets redis r _ (refreshed_Within z c u sets redis now (z.scan r.sorted) r.sorted)
        refl h

  unsubscribe_symbol-IsCovered :
      (connection now : ℕ) (symbol : Text) (r : Registry Z C U)
      → IsCovered z c u r
      → IsCovered z c u (unsubscribe_symbol z c u connection now symbol r).0
  unfolding unsubscribe_symbol Within
  unsubscribe_symbol-IsCovered connection now symbol r h =
      let live = z.zremrangebyscore r.sorted (symbol_key symbol) now in
      let gone = z.zrem live (symbol_key symbol) connection in
      let next : Registry Z C U = record r {
        sorted = gone.0;
        sets = c.srem r.sets connection symbol;
      } in
      let fewer : IsCovered z c u next =
        shrunk z c u sets redis r next
          (Within-trans z c u sets redis gone.0 live r.sorted
            (removed_Within z c u sets redis live (symbol_key symbol) connection)
            (purged_Within z c u sets redis r.sorted (symbol_key symbol) now))
          refl h in
      elim (Bool-cases (z.zcard gone.0 (symbol_key symbol) == 0)) [
        | inl y ↦ rw y (shrunk z c u sets redis next _ (λ k m v e. (v, e)) refl fewer)
        | inr n ↦ rw n fewer
      ]

  pub unsubscribe_all-IsCovered :
      (connection now : ℕ) (symbols removed : List Text) (r : Registry Z C U)
      → IsCovered z c u r
      → IsCovered z c u (unsubscribe_all z c u connection now symbols removed r).0
  unfolding unsubscribe_all
  unsubscribe_all-IsCovered connection now [] removed r h = h
  unsubscribe_all-IsCovered connection now (symbol ∷ symbols) removed r h =
      unsubscribe_all-IsCovered connection now symbols _ _
        (unsubscribe_symbol-IsCovered connection now (upper symbol) r h)

  pub left-IsCovered :
      (connection now : ℕ) (symbols : List Text) (r : Registry Z C U)
      → IsCovered z c u r
      → IsCovered z c u (left z c u connection now symbols r).0
  unfolding unsubscribe
  left-IsCovered connection now [] r h = h
  left-IsCovered connection now (symbol ∷ symbols) r h =
      refresh-IsCovered now _
        (unsubscribe_all-IsCovered connection now (sorted_texts (symbol ∷ symbols)) [] r h)

  cleanup_key-IsCovered :
      (now : ℕ) (key : Text) (r : Registry Z C U)
      → IsCovered z c u r
      → IsCovered z c u (cleanup_key z c u now key r)
  unfolding cleanup_key Within
  cleanup_key-IsCovered now key r h =
      let live = z.zremrangebyscore r.sorted key now in
      let next : Registry Z C U = record r { sorted = live } in
      let fewer : IsCovered z c u next =
        shrunk z c u sets redis r next (purged_Within z c u sets redis r.sorted key now) refl h in
      elim (Bool-cases (not (z.zcard r.sorted key == 0) && z.zcard live key == 0)) [
        | inl y ↦ rw y (shrunk z c u sets redis next _ (λ k m v e. (v, e)) refl fewer)
        | inr n ↦ rw n fewer
      ]

  pub cleanup_keys-IsCovered :
      (now : ℕ) (keys : List Text) (r : Registry Z C U)
      → IsCovered z c u r
      → IsCovered z c u (cleanup_keys z c u now keys r)
  unfolding cleanup_keys
  cleanup_keys-IsCovered now [] r h = h
  cleanup_keys-IsCovered now (key ∷ keys) r h =
      cleanup_keys-IsCovered now keys (cleanup_key z c u now key r)
        (cleanup_key-IsCovered now key r h)

  -- A release of a symbol without members takes its state away, and nothing else.
  released_get :
      (symbol : Text) (s : U) (j : Text)
      → text_eq symbol j ≡ false
      → (idle : Bool) → u.get (released z c u symbol idle s) (state_key j) ≡ u.get s (state_key j)
  released_get symbol s j n idle =
      elim (Bool-cases (idle && is_active (u.get s (state_key symbol)))) [
        | inr no_release ↦ rw no_release refl
        | inl release ↦ rw release (
            ground (
              arith,
              redis.get-xadd (u.del s (state_key symbol))
                  (record { action = Action.unsubscribe; symbol = symbol }) (state_key j),
              redis.get-del s (state_key symbol) (state_key j),
              text_eq-state_key symbol j,
              n,
            ))
      ]

  released_plain :
      (symbol : Text) (s : U) (j v : Text) (idle : Bool)
      → u.get (released z c u symbol idle s) (state_key j) ≡ some v
      → u.get s (state_key j) ≡ some v
  released_plain symbol s j v idle =
      elim (Bool-cases (idle && is_active (u.get s (state_key symbol)))) [
        | inr no_release ↦ rw no_release (λ e. e)
        | inl release ↦ rw release (λ e. ground (
          arith,
          e,
          redis.get-xadd (u.del s (state_key symbol))
              (record { action = Action.unsubscribe; symbol = symbol }) (state_key j),
          redis.get-del s (state_key symbol) (state_key j),
        ))
      ]

  pub release-IsCovered :
      (symbol : Text) (now : ℕ) (r : Registry Z C U)
      → IsCovered z c u r
      → IsCovered z c u (release_after_grace z c u symbol now r)
  unfolding release_after_grace Within
  release-IsCovered symbol now r h =
      let live = z.zremrangebyscore r.sorted (symbol_key symbol) now in
      let idle = z.zcard live (symbol_key symbol) == 0 in
      refresh-IsCovered now _ record {
        covered = λ j m v p.
            let (w, q) =
              purged_Within z c u sets redis r.sorted (symbol_key symbol) now (symbol_key j) m v
                p in
            elim (Bool-cases (text_eq symbol j)) [
              | inr n ↦ released_get symbol r.states j n idle ∙ h.covered j m w q
              | inl y ↦ elim (Bool-cases idle) [
                | inr busy ↦ rw busy (h.covered j m w q)
                | inl none_left ↦ absurd (
                    ground (
                      arith,
                      p,
                      text_eq→eq symbol j y,
                      none_left,
                      ==_iff (z.zcard live (symbol_key symbol)) 0,
                      (sets.zcard_zero live (symbol_key symbol)).0
                          ((==_iff (z.zcard live (symbol_key symbol)) 0).0 none_left) m,
                    ))
              ]
            ];
        plain = λ j v p. h.plain j v (released_plain symbol r.states j v idle p);
      }
