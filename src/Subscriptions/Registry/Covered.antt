-- ===== src/Subscriptions/Registry/Covered.antt =====
-- Every subscription that the server holds has an active upstream state.
use smart_market_data_gatewa.Prelude.{
  ℕ, ◌≡◌, ◌∙◌, sym, refl, ap, Bool, true, false, ◌&&◌, ◌==◌, if◌then◌else◌, Option, none, some,
  List, [], ◌∷◌, arith, Bool-cases, Option-cases, inl, inr, ==_iff,
}
use smart_market_data_gatewa.Prelude.Text.{Text, text_eq, text_eq→eq, text_eq_refl}
use smart_market_data_gatewa.Subscriptions.Server.{
  SortedSets, IsSortedSets, Sets, States, IsStates, above,
}
use smart_market_data_gatewa.Subscriptions.Keys.{
  symbol_key, state_key, text_eq-state_key, text_eq-symbol_key,
}
use smart_market_data_gatewa.Subscriptions.Registry.{
  Registry, active, announced, activate, subscribe_symbol, refresh_keys,
}

above-some : (now v : ℕ) (o : Option ℕ) → above now o ≡ some v → o ≡ some v
above-some now v none h = h
above-some now v (some w) h = ground arith

module _ {Z C U : Type 0} (z : SortedSets Z) (c : Sets C) (u : States U) where
  pub record IsCovered (r : Registry Z C U) : Type 0 where
    pub covered :
        (symbol : Text) (m v : ℕ)
        → z.zscore r.sorted (symbol_key symbol) m ≡ some v
        → u.get r.states (state_key symbol) ≡ some active
    pub plain : (symbol v : Text) → u.get r.states (state_key symbol) ≡ some v → v ≡ active

  -- Each member of the first is one of the second.
  unfoldable pub Within : Z → Z → Type 0
  Within s t = (k : Text) (m v : ℕ) → z.zscore s k m ≡ some v → (w : ℕ) × (z.zscore t k m ≡ some w)

module _ {Z C U : Type 0} (z : SortedSets Z) (c : Sets C) (u : States U) (sets : IsSortedSets z)
    (redis : IsStates u) where
  pub Within-trans : (a b d : Z) → Within z c u a b → Within z c u b d → Within z c u a d
  unfolding Within
  Within-trans a b d p q k m v e = let (w, f) = p k m v e in q k m w f

  pub purged_Within : (s : Z) (key : Text) (now : ℕ) → Within z c u (z.zremrangebyscore s key now) s
  unfolding Within
  purged_Within s key now k m v e = elim (Bool-cases (text_eq key k)) [
    | inl y ↦
        (v, above-some now v _ (ground (arith, e, y, sets.zscore-zremrangebyscore s key now k m)))
    | inr n ↦ (v, ground (arith, e, n, sets.zscore-zremrangebyscore s key now k m))
  ]

  pub removed_Within : (s : Z) (key : Text) (member : ℕ) → Within z c u (z.zrem s key member).0 s
  unfolding Within
  removed_Within s key member k m v e = (v, ground (arith, e, sets.zscore-zrem s key member k m))

  pub refreshed_Within :
      (now : ℕ) (keys : List Text) (s : Z) → Within z c u (refresh_keys z c u now keys s) s
  unfolding refresh_keys Within
  refreshed_Within now [] s k m v e = (v, e)
  refreshed_Within now (key ∷ keys) s k m v e =
      let (w, f) = refreshed_Within now keys (z.zremrangebyscore s key now) k m v e in
      purged_Within s key now k m w f

  -- Fewer members, and the same states.
  pub shrunk :
      (r t : Registry Z C U)
      → Within z c u t.sorted r.sorted
      → t.states ≡ r.states
      → IsCovered z c u r
      → IsCovered z c u t
  unfolding Within
  shrunk r t w e h = record {
    covered = λ symbol m v p.
        let (v', q) = w (symbol_key symbol) m v p in
        ap (λ s. u.get s (state_key symbol)) e ∙ h.covered symbol m v' q;
    plain = λ symbol v p. h.plain symbol v (ap (λ s. u.get s (state_key symbol)) (sym e) ∙ p);
  }

  announced_get :
      (symbol : Text) (x : U × Bool) (j : Text) → u.get (announced z c u symbol x) j ≡ u.get x.0 j
  announced_get symbol (s, true) j = redis.get-xadd s _ j
  announced_get symbol (s, false) j = refl

  kept :
      (symbol : Text) (s : U) (j v : Text)
      → u.get s (state_key symbol) ≡ some v
      → v ≡ active
      → u.get s (state_key j) ≡ (if text_eq symbol j then some active else u.get s (state_key j))
  kept symbol s j v old same = elim (Bool-cases (text_eq symbol j)) [
    | inr n ↦ rw n refl
    | inl y ↦
        rw y (ap (λ k. u.get s (state_key k)) (sym (text_eq→eq symbol j y)) ∙ old ∙ ap some same)
  ]

  activate_get :
      (symbol : Text) (s : U) (j : Text)
      → ((v : Text) → u.get s (state_key symbol) ≡ some v → v ≡ active)
      → u.get (activate z c u symbol s) (state_key j)
        ≡ (if text_eq symbol j then some active else u.get s (state_key j))
  activate_get symbol s j plain =
      announced_get symbol (u.set_nx s (state_key symbol) active) (state_key j)
      ∙ elim (Option-cases (u.get s (state_key symbol))) [
        | inl n ↦
            redis.get-set_nx s (state_key symbol) active (state_key j) n
            ∙ ap (λ b. if b then some active else u.get s (state_key j))
                (text_eq-state_key symbol j)
        | inr (v, old) ↦
            ap (λ x. u.get x.0 (state_key j)) (redis.set_nx_old s (state_key symbol) active v old)
            ∙ kept symbol s j (v) old (plain v old)
      ]

  -- An activation of a symbol of which there are members, and of none else.
  activated_IsCovered :
      (symbol : Text) (r t : Registry Z C U)
      → IsCovered z c u r
      → ((j : Text) (m v : ℕ)
          → text_eq symbol j ≡ false
          → z.zscore t.sorted (symbol_key j) m ≡ some v
          → (w : ℕ) × (z.zscore r.sorted (symbol_key j) m ≡ some w))
      → t.states ≡ activate z c u symbol r.states
      → IsCovered z c u t
  activated_IsCovered symbol r t h others e =
      let got : (j : Text)
          → u.get t.states (state_key j)
            ≡ (if text_eq symbol j then some active else u.get r.states (state_key j)) =
        λ j. ap (λ s. u.get s (state_key j)) e ∙ activate_get symbol r.states j (h.plain symbol) in
      record {
        covered = λ j m v p. elim (Bool-cases (text_eq symbol j)) [
          | inl y ↦ got j ∙ rw y refl
          | inr n ↦ let (w, q) = others j m v n p in got j ∙ rw n (h.covered j m w q)
        ];
        plain = λ j v p. elim (Bool-cases (text_eq symbol j)) [
          | inl y ↦ ground (arith, got j, y, p)
          | inr n ↦ h.plain j v (ground (arith, got j, n, p))
        ];
      }

  put_other :
      (r : Registry Z C U) (symbol : Text) (now score member : ℕ) (j : Text) (m v : ℕ)
      → text_eq symbol j && member == m ≡ false
      → z.zscore
          (z.zadd
            (z.zremrangebyscore r.sorted (symbol_key symbol) now)
            (symbol_key symbol)
            score
            member).0
          (symbol_key j)
          m
        ≡ some v
      → (w : ℕ) × (z.zscore r.sorted (symbol_key j) m ≡ some w)
  unfolding Within
  put_other r symbol now score member j m v n p =
      purged_Within r.sorted (symbol_key symbol) now (symbol_key j) m v (
        ground (
          arith,
          n,
          p,
          text_eq-symbol_key symbol j,
          sets.zscore-zadd (z.zremrangebyscore r.sorted (symbol_key symbol) now) (symbol_key symbol)
              score member (symbol_key j) m,
        ))

  -- Another member of the symbol's set shows its state active.
  shared_active :
      (r : Registry Z C U) (symbol : Text) (now score member : ℕ)
      → IsCovered z c u r
      → (z.zcard
            (z.zadd
              (z.zremrangebyscore r.sorted (symbol_key symbol) now)
              (symbol_key symbol)
              score
              member).0
            (symbol_key symbol)
          == 1)
        ≡ false
      → u.get r.states (state_key symbol) ≡ some active
  shared_active r symbol now score member h more =
      let put =
        (z.zadd (z.zremrangebyscore r.sorted (symbol_key symbol) now) (symbol_key symbol) score
          member).0 in
      let mine : z.zscore put (symbol_key symbol) member ≡ some score = ground (
        arith,
        text_eq_refl (symbol_key symbol),
        ==_iff member member,
        sets.zscore-zadd (z.zremrangebyscore r.sorted (symbol_key symbol) now) (symbol_key symbol)
            score member (symbol_key symbol) member,
      ) in
      let (n, w, other, q) =
        sets.zcard_other put (symbol_key symbol) member score mine (ground (arith, more)) in
      let (w', q') = put_other r symbol now score member symbol n w (ground (arith, other)) q in
      h.covered symbol n w' q'

  pub subscribe_symbol-IsCovered :
      (connection now expires_at : ℕ) (symbol : Text) (r : Registry Z C U)
      → IsCovered z c u r
      → IsCovered z c u (subscribe_symbol z c u connection now expires_at symbol r).0
  unfolding subscribe_symbol
  subscribe_symbol-IsCovered connection now expires_at symbol r h =
      let put =
        (z.zadd (z.zremrangebyscore r.sorted (symbol_key symbol) now) (symbol_key symbol) expires_at
          connection).0 in
      elim (Bool-cases (z.zcard put (symbol_key symbol) == 1)) [
        | inl y ↦
            activated_IsCovered symbol r _ h
              (λ j m v n p.
                put_other r symbol now expires_at connection j m v (ground (arith, n)) p)
              (rw y refl)
        | inr n ↦ rw n record {
          covered = λ j m v p. elim (Bool-cases (text_eq symbol j && connection == m)) [
            | inr other ↦
                let (w, q) = put_other r symbol now expires_at connection j m v other p in
                h.covered j m w q
            | inl same ↦
                let together : text_eq symbol j ≡ true = ground (arith, same) in
                ap (λ k. u.get r.states (state_key k)) (sym (text_eq→eq symbol j together))
                ∙ shared_active r symbol now expires_at connection h n
          ];
          plain = λ j v p. h.plain j v p;
        }
      ]
