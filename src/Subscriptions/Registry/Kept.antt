-- ===== src/Subscriptions/Registry/Kept.antt =====
-- Every subscription that the server holds has an active upstream state, whatever calls run.
use smart_market_data_gatewa.Prelude.{
  ℕ, ◌+◌, ◌≡◌, sym, refl, true, false, ◌&&◌, ◌||◌, ◌⊎◌, ◌==◌, none, some, List, [], ◌∷◌, arith,
  Bool-cases, inl, inr, ==_iff,
}
use smart_market_data_gatewa.Prelude.Text.{
  Text, text_eq, text_eq→eq, text_eq_refl, sorted_texts, has_text,
}
use smart_market_data_gatewa.Subscriptions.Server.{SortedSets, IsSortedSets, Sets, States, IsStates}
use smart_market_data_gatewa.Subscriptions.Keys.{symbol_key, state_key, text_eq-symbol_key}
use smart_market_data_gatewa.Subscriptions.Registry.{
  Registry, Settings, subscribe, unsubscribe, extend_all, heartbeat, disconnect, cleanup_expired,
}
use smart_market_data_gatewa.Subscriptions.Registry.Calls.{
  Call, subscribing, unsubscribing, beating, disconnecting, releasing, cleaning, refreshing,
  perform, perform_all,
}
use smart_market_data_gatewa.Subscriptions.Registry.Covered.{IsCovered, Within, shrunk}
use smart_market_data_gatewa.Subscriptions.Registry.Operations.{
  subscribe_all-IsCovered, refresh-IsCovered, unsubscribe_all-IsCovered, left-IsCovered,
  cleanup_keys-IsCovered, release-IsCovered,
}

module _ {Z C U : Type 0} (z : SortedSets Z) (c : Sets C) (u : States U) where
  -- The symbols that a connection has subscribed to are symbols that it has not lost by expiry.
  unfoldable pub IsAlive : ℕ → Registry Z C U → Type 0
  IsAlive connection r =
      (symbol : Text)
      → has_text (c.smembers r.sets connection) symbol ≡ true
      → (w : ℕ) × (z.zscore r.sorted (symbol_key symbol) connection ≡ some w)

  -- What a call needs: a heartbeat comes before the connection's subscriptions have been dropped.
  unfoldable pub IsTimely : Call → Registry Z C U → Type 0
  IsTimely (subscribing connection symbols now) r = Unit
  IsTimely (unsubscribing connection symbols now) r = Unit
  IsTimely (beating connection now) r = IsAlive connection r
  IsTimely (disconnecting connection now) r = Unit
  IsTimely (releasing symbol now) r = Unit
  IsTimely (cleaning now) r = Unit
  IsTimely (refreshing now) r = Unit

  -- Each call of a sequence has what it needs, when it comes.
  unfoldable pub AreTimely : Settings → List Call → Registry Z C U → Type 0
  AreTimely settings [] r = Unit
  AreTimely settings (x ∷ xs) r = IsTimely x r × AreTimely settings xs (perform z c u settings x r)

module _ {Z C U : Type 0} (z : SortedSets Z) (c : Sets C) (u : States U) (sets : IsSortedSets z)
    (redis : IsStates u) where
  extended_Within :
      (connection expires_at : ℕ) (symbols : List Text) (s t : Z)
      → Within z c u s t
      → ((symbol : Text)
          → has_text symbols symbol ≡ true
          → (w : ℕ) × (z.zscore t (symbol_key symbol) connection ≡ some w))
      → Within z c u (extend_all z c u connection expires_at symbols s) t
  unfolding extend_all Within has_text
  extended_Within connection expires_at [] s t h alive = h
  extended_Within connection expires_at (symbol ∷ symbols) s t h alive =
      extended_Within connection expires_at symbols _ t
        (λ k m v p. elim (Bool-cases (text_eq (symbol_key symbol) k && connection == m)) [
          | inr n ↦ h k m v (
              ground
                (arith, n, p, sets.zscore-zadd s (symbol_key symbol) expires_at connection k m))
          | inl y ↦
              let (w, q) = alive symbol (ground (arith, text_eq_refl symbol)) in
              let key : symbol_key symbol ≡ k =
                text_eq→eq (symbol_key symbol) k (ground (arith, y)) in
              let one : connection ≡ m = ground (arith, y, ==_iff connection m) in
              (w, rw (sym key, sym one) q)
        ])
        (λ j i. alive j (ground (arith, i)))

  perform-IsCovered :
      (settings : Settings) (x : Call) (r : Registry Z C U)
      → IsTimely z c u x r
      → IsCovered z c u r
      → IsCovered z c u (perform z c u settings x r)
  unfolding IsTimely IsAlive subscribe unsubscribe heartbeat disconnect cleanup_expired Within
  perform-IsCovered settings (subscribing connection symbols now) r a h =
      refresh-IsCovered z c u sets redis now _
        (subscribe_all-IsCovered z c u sets redis connection now _ (sorted_texts symbols) [] r h)
  perform-IsCovered settings (unsubscribing connection symbols now) r a h =
      refresh-IsCovered z c u sets redis now _
        (unsubscribe_all-IsCovered z c u sets redis connection now (sorted_texts symbols) [] r h)
  perform-IsCovered settings (beating connection now) r a h =
      shrunk z c u sets redis r _
        (extended_Within connection (now + settings.subscription_ttl_seconds)
          (c.smembers r.sets connection) r.sorted r.sorted (λ k m v e. (v, e)) a)
        refl h
  perform-IsCovered settings (disconnecting connection now) r a h =
      shrunk z c u sets redis _ _ (λ k m v e. (v, e)) refl
        (left-IsCovered z c u sets redis connection now (c.smembers r.sets connection) r h)
  perform-IsCovered settings (releasing symbol now) r a h =
      release-IsCovered z c u sets redis symbol now r h
  perform-IsCovered settings (cleaning now) r a h =
      refresh-IsCovered z c u sets redis now _
        (cleanup_keys-IsCovered z c u sets redis now (z.scan r.sorted) r h)
  perform-IsCovered settings (refreshing now) r a h = refresh-IsCovered z c u sets redis now r h

  -- If each membership that the server holds is of a symbol whose state is active, and each state
  -- that is set is active, and a heartbeat comes only while its connection is still a member of
  -- each symbol that it subscribed to, then that is so again after any sequence of calls.
  pub perform_all-IsCovered :
      (settings : Settings) (xs : List Call) (r : Registry Z C U)
      → AreTimely z c u settings xs r
      → IsCovered z c u r
      → IsCovered z c u (perform_all z c u settings xs r)
  unfolding perform_all AreTimely
  perform_all-IsCovered settings [] r a h = h
  perform_all-IsCovered settings (x ∷ xs) r a h =
      perform_all-IsCovered settings xs _ a.1 (perform-IsCovered settings x r a.0 h)

  extend_all_member :
      (connection expires_at : ℕ) (symbols : List Text) (s : Z) (symbol : Text)
      → (has_text symbols symbol ≡ true)
        ⊎ (z.zscore s (symbol_key symbol) connection ≡ some expires_at)
      → z.zscore (extend_all z c u connection expires_at symbols s) (symbol_key symbol) connection
        ≡ some expires_at
  unfolding extend_all has_text
  extend_all_member connection expires_at [] s symbol (inl a) = absurd cc
  extend_all_member connection expires_at [] s symbol (inr b) = b
  extend_all_member connection expires_at (x ∷ xs) s symbol a =
      extend_all_member connection expires_at xs (z.zadd s (symbol_key x) expires_at connection).0
        symbol
        (elim (Bool-cases (text_eq x symbol)) [
          | inl y ↦ inr (
              ground (
                arith,
                y,
                text_eq-symbol_key x symbol,
                ==_iff connection connection,
                sets.zscore-zadd s (symbol_key x) expires_at connection (symbol_key symbol)
                    connection,
              ))
          | inr n ↦ later n a
        ])
    where
      later :
          text_eq x symbol ≡ false
          → (text_eq x symbol || has_text xs symbol ≡ true)
            ⊎ (z.zscore s (symbol_key symbol) connection ≡ some expires_at)
          → (has_text xs symbol ≡ true)
            ⊎ (z.zscore
                  (z.zadd s (symbol_key x) expires_at connection).0
                  (symbol_key symbol)
                  connection
                ≡ some expires_at)
      later n (inl i) = inl (ground (arith, n, i))
      later n (inr e) = inr (
          ground (
            arith,
            n,
            e,
            text_eq-symbol_key x symbol,
            sets.zscore-zadd s (symbol_key x) expires_at connection (symbol_key symbol) connection,
          ))

  -- A heartbeat of a connection that subscribed to a symbol of which the state was taken away in
  -- the meantime makes it a member again, to the new expiry, and the symbol stays without a state.
  pub heartbeat_uncovered :
      (settings : Settings) (connection now : ℕ) (symbol : Text) (r : Registry Z C U)
      → has_text (c.smembers r.sets connection) symbol ≡ true
      → u.get r.states (state_key symbol) ≡ none
      → (z.zscore (heartbeat z c u settings connection now r).sorted (symbol_key symbol) connection
          ≡ some (now + settings.subscription_ttl_seconds))
        × (u.get (heartbeat z c u settings connection now r).states (state_key symbol) ≡ none)
  unfolding heartbeat
  heartbeat_uncovered settings connection now symbol r i e =
      (extend_all_member connection _ (c.smembers r.sets connection) r.sorted symbol (inl i), e)
