-- ===== src/Subscriptions/Registry/Upstream.antt =====
-- What the registry announces to the collector, over any sequence of its calls.
use mathlib.Core.List.{foldl}
use smart_market_data_gatewa.Prelude.{
  ◌≡◌, ◌∙◌, sym, refl, ap, subst, Bool, true, false, ◌&&◌, List, [], ◌∷◌, ◌++◌, arith, Bool-cases,
  Option-cases, inl, inr, All, All-append,
}
use smart_market_data_gatewa.Prelude.Text.{
  Text, text_eq, text_eq→eq, upper, has_text, has_text-add_text, has_text-discard_text,
}
use smart_market_data_gatewa.Collector.{Action, Control, noted, changes}
use smart_market_data_gatewa.Subscriptions.Server.{SortedSets, Sets, States, IsStates}
use smart_market_data_gatewa.Subscriptions.Keys.{state_key, text_eq-state_key}
use smart_market_data_gatewa.Subscriptions.Registry.{
  active, is_active, announced, activate, released,
}

-- The symbols that a stream of controls leaves active, after those that were.
abbrev pub held : List Text → List Control → List Text
held = foldl λ symbols c. noted c.action c.symbol symbols

-- Every control changes what is active when it comes.
unfoldable pub Effective : List Text → List Control → Type 0
Effective symbols [] = Unit
Effective symbols (c ∷ cs) =
    (changes c.action c.symbol symbols ≡ true) × Effective (noted c.action c.symbol symbols) cs

held-append :
    (symbols : List Text) (cs : List Control) (c : Control)
    → held symbols (cs ++ c ∷ []) ≡ noted c.action c.symbol (held symbols cs)
held-append symbols [] c = refl
held-append symbols (d ∷ cs) c = held-append (noted d.action d.symbol symbols) cs c

Effective-append :
    (symbols : List Text) (cs : List Control) (c : Control)
    → Effective symbols cs
    → changes c.action c.symbol (held symbols cs) ≡ true
    → Effective symbols (cs ++ c ∷ [])
unfolding Effective
Effective-append symbols [] c e h = (h, tt)
Effective-append symbols (d ∷ cs) c e h =
    (e.0, Effective-append (noted d.action d.symbol symbols) cs c e.1 h)

abbrev pub IsUpper : Text → Type 0
IsUpper symbol = upper symbol ≡ symbol

-- What a stream of controls in upper case leaves active is in upper case.
held-IsUpper :
    (cs : List Control) (symbols : List Text) (t : Text)
    → All (λ c. IsUpper c.symbol) cs
    → ((s : Text) → has_text symbols s ≡ true → IsUpper s)
    → has_text (held symbols cs) t ≡ true
    → IsUpper t
held-IsUpper [] symbols t h k e = k t e
held-IsUpper (c ∷ cs) symbols t (one, h) k e =
    held-IsUpper cs (noted c.action c.symbol symbols) t h (noted-IsUpper c.action c.symbol one) e
  where
    noted-IsUpper :
        (action : Action) (symbol : Text)
        → IsUpper symbol
        → (s : Text) → has_text (noted action symbol symbols) s ≡ true
        → IsUpper s
    noted-IsUpper Action.subscribe symbol one s e = elim (Bool-cases (text_eq symbol s)) [
      | inl y ↦ subst IsUpper (text_eq→eq symbol s y) one
      | inr n ↦ k s (ground (arith, e, n, has_text-add_text symbol s symbols))
    ]
    noted-IsUpper Action.unsubscribe symbol one s e =
        k s (ground (arith, e, has_text-discard_text symbol s symbols))

module _ {U : Type 0} (u : States U) where
  -- The state keys say what the stream of controls leaves active, no control is redundant, and
  -- all are in upper case.
  pub record IsAnnounced (s : U) : Type 0 where
    pub agree :
        (symbol : Text)
        → is_active (u.get s (state_key symbol)) ≡ has_text (held [] (u.published s)) symbol
    pub effective : Effective [] (u.published s)
    pub uppercase : All (λ c. IsUpper c.symbol) (u.published s)

module _ {Z C U : Type 0} (z : SortedSets Z) (c : Sets C) (u : States U) (redis : IsStates u) where
  announced_lem :
      (s t : U) (control : Control)
      → IsAnnounced u s
      → u.published t ≡ u.published s
      → changes control.action control.symbol (held [] (u.published s)) ≡ true
      → ((j : Text)
          → is_active (u.get t (state_key j))
            ≡ has_text (noted control.action control.symbol (held [] (u.published s))) j)
      → IsUpper control.symbol
      → IsAnnounced u (u.xadd t control)
  announced_lem s t control h same new agree up =
      let log : u.published (u.xadd t control) ≡ u.published s ++ control ∷ [] =
        redis.published-xadd t control ∙ ap (λ cs. cs ++ control ∷ []) same in
      record {
        agree = λ j.
            ap is_active (redis.get-xadd t control (state_key j))
            ∙ agree j
            ∙ ap (λ ss. has_text ss j)
                (sym (ap (held []) log ∙ held-append [] (u.published s) control));
        effective =
            subst (Effective []) (sym log)
              (Effective-append [] (u.published s) control h.effective new);
        uppercase = subst (All (λ c. IsUpper c.symbol)) (sym log) (
            All-append (λ c. IsUpper c.symbol) (u.published s) (control ∷ []) h.uppercase (up, tt));
      }

  announced_new :
      (symbol : Text) (r : U × Bool)
      → r.1 ≡ true
      → announced z c u symbol r
        ≡ u.xadd r.0 (record { action = Action.subscribe; symbol = symbol })
  announced_new symbol (s, true) e = refl
  announced_new symbol (s, false) e = absurd cc

  pub activate-IsAnnounced :
      (symbol : Text) (s : U)
      → IsUpper symbol
      → IsAnnounced u s
      → IsAnnounced u (activate z c u symbol s)
  activate-IsAnnounced symbol s up h = elim (Option-cases (u.get s (state_key symbol))) [
    | inr (v, old) ↦ rw (redis.set_nx_old s (state_key symbol) active v old) h
    | inl n ↦
        subst (IsAnnounced u)
          (sym (
            announced_new symbol (u.set_nx s (state_key symbol) active)
              (redis.set_nx_new s (state_key symbol) active n)))
          (announced_lem s (u.set_nx s (state_key symbol) active).0 _ h
            (redis.published-set_nx s (state_key symbol) active) (ground (arith, n, h.agree symbol))
            (λ j. ground (
              arith,
              redis.get-set_nx s (state_key symbol) active (state_key j) n,
              text_eq-state_key symbol j,
              has_text-add_text symbol j (held [] (u.published s)),
              h.agree j,
            ))
            up)
  ]

  pub released-IsAnnounced :
      (symbol : Text) (idle : Bool) (s : U)
      → IsAnnounced u s
      → IsAnnounced u (released z c u symbol idle s)
  released-IsAnnounced symbol idle s h =
      elim (Bool-cases (idle && is_active (u.get s (state_key symbol)))) [
        | inr n ↦ rw n h
        | inl y ↦ rw y (
            announced_lem s (u.del s (state_key symbol)) _ h
              (redis.published-del s (state_key symbol)) (ground (arith, y, h.agree symbol))
              (λ j. ground (
                arith,
                redis.get-del s (state_key symbol) (state_key j),
                text_eq-state_key symbol j,
                has_text-discard_text symbol j (held [] (u.published s)),
                h.agree j,
              ))
              (held-IsUpper (u.published s) [] symbol h.uppercase
                (λ t e. unfold has_text in absurd cc) (ground (arith, y, h.agree symbol))))
      ]
