-- ===== src/Subscriptions/Collected.antt =====
-- The registry and the collector together: the stream of controls from the one to the other.
use smart_market_data_gatewa.Prelude.{
  ℕ, ◌≡◌, ◌∙◌, sym, refl, ap, subst, false, ◌||◌, if◌then◌else◌, none, some, List, [], ◌∷◌, ◌++◌,
  map, All,
}
use smart_market_data_gatewa.Prelude.Text.{
  Text, text_eq, upper, has_text, has_text-add_text, has_text-discard_text,
}
use smart_market_data_gatewa.Prelude.Outcome.{
  Outcome, ok, raised, value_error, key_error, runtime_error, os_error, arithmetic_error, cancelled,
}
use smart_market_data_gatewa.Collector.{
  Action, Control, Provider, Collector, noted, apply_control, judged, control_entry,
}
use smart_market_data_gatewa.Collector.Loop.{
  Entry, error_of, unless_raised, control_batch, unless_cancelled, control_loop,
}
use smart_market_data_gatewa.Subscriptions.Server.{SortedSets, Sets, States, IsStates}
use smart_market_data_gatewa.Subscriptions.Keys.{state_key}
use smart_market_data_gatewa.Subscriptions.Registry.{Registry, Settings, is_active}
use smart_market_data_gatewa.Subscriptions.Registry.Upstream.{IsUpper, held, Effective}
use smart_market_data_gatewa.Subscriptions.Registry.Calls.{
  Call, perform_all, perform_all-IsConsistent,
}

-- The entry of the stream that `publish_control` adds for a control.
abbrev pub entry_of : Control → Entry
entry_of c = record { action = some c.action; symbol = c.symbol }

abbrev pub entries_of : List (List Control) → List (List Entry)
entries_of = map (map entry_of)

abbrev pub joined : List (List Control) → List Control
joined [] = []
joined (cs ∷ css) = cs ++ joined css

abbrev AreUpper : List Control → Type 0
AreUpper = All λ c. IsUpper c.symbol

AreUpper-append : (cs ds : List Control) → AreUpper (cs ++ ds) → AreUpper cs × AreUpper ds
AreUpper-append [] ds h = (tt, h)
AreUpper-append (c ∷ cs) ds (one, h) = let (a, b) = AreUpper-append cs ds h in ((one, a), b)

held-append_all :
    (symbols : List Text) (cs ds : List Control)
    → held symbols (cs ++ ds) ≡ held (held symbols cs) ds
held-append_all symbols [] ds = refl
held-append_all symbols (c ∷ cs) ds = held-append_all (noted c.action c.symbol symbols) cs ds

-- Two sets that agree on a symbol do so after a control.
noted_alike :
    (action : Action) (symbol t : Text) (xs ys : List Text)
    → has_text xs t ≡ has_text ys t
    → has_text (noted action symbol xs) t ≡ has_text (noted action symbol ys) t
noted_alike Action.subscribe symbol t xs ys e =
    has_text-add_text symbol t xs
    ∙ ap (λ b. text_eq symbol t || b) e
    ∙ sym (has_text-add_text symbol t ys)
noted_alike Action.unsubscribe symbol t xs ys e =
    has_text-discard_text symbol t xs
    ∙ ap (λ b. if text_eq symbol t then false else b) e
    ∙ sym (has_text-discard_text symbol t ys)

-- A control of the empty symbol leaves what is known of every other symbol.
noted_empty :
    (action : Action) (x : ℕ) (t : Text) (ys : List Text)
    → has_text (noted action [] ys) (x ∷ t) ≡ has_text ys (x ∷ t)
noted_empty Action.subscribe x t ys = has_text-add_text [] (x ∷ t) ys
noted_empty Action.unsubscribe x t ys = has_text-discard_text [] (x ∷ t) ys

module _ {P : Type 0} (p : Provider P) where
  judged_symbols : (r : Collector P × Outcome (Unit {0})) → (judged p r).0 ≡ r.0
  judged_symbols (c, ok u) = refl
  judged_symbols (c, raised e) = refl

  control_entry_lem :
      (c : Control) (k : Collector P) (ys : List Text) (x : ℕ) (t : Text)
      → IsUpper c.symbol
      → has_text k.active_symbols (x ∷ t) ≡ has_text ys (x ∷ t)
      → has_text (control_entry p (some c.action) c.symbol k).0.active_symbols (x ∷ t)
        ≡ has_text (noted c.action c.symbol ys) (x ∷ t)
  unfolding control_entry apply_control
  control_entry_lem c k ys x t up e = of_symbol c.symbol up
    where
      of_symbol :
          (s : Text)
          → IsUpper s
          → has_text (control_entry p (some c.action) s k).0.active_symbols (x ∷ t)
            ≡ has_text (noted c.action s ys) (x ∷ t)
      of_symbol [] up = unfold upper in e ∙ sym (noted_empty c.action x t ys)
      of_symbol (y ∷ s) up = rw up (
          ap (λ k'. has_text k'.active_symbols (x ∷ t))
            (judged_symbols (apply_control p c.action (y ∷ s) k))
          ∙ noted_alike c.action (y ∷ s) (x ∷ t) k.active_symbols ys e)

  unless_raised-ok :
      (o : Outcome (Unit {0})) (c : Collector P) (rest : Collector P × Outcome (Unit {0}))
      → (unless_raised p o c rest).1 ≡ ok tt
      → unless_raised p o c rest ≡ rest
  unless_raised-ok (ok u) c rest h = refl
  unless_raised-ok (raised e) c rest h = absurd cc

  control_batch_lem :
      (cs : List Control) (k : Collector P) (ys : List Text) (x : ℕ) (t : Text)
      → AreUpper cs
      → has_text k.active_symbols (x ∷ t) ≡ has_text ys (x ∷ t)
      → (control_batch p (map entry_of cs) k).1 ≡ ok tt
      → has_text (control_batch p (map entry_of cs) k).0.active_symbols (x ∷ t)
        ≡ has_text (held ys cs) (x ∷ t)
  unfolding control_batch
  control_batch_lem [] k ys x t up e h = e
  control_batch_lem (c ∷ cs) k ys x t (one, up) e h =
      let next = control_entry p (some c.action) c.symbol k in
      let rest = control_batch p (map entry_of cs) next.0 in
      let same = unless_raised-ok (error_of p next.1) next.0 rest h in
      ap (λ r. has_text r.0.active_symbols (x ∷ t)) same
      ∙ control_batch_lem cs next.0 (noted c.action c.symbol ys) x t up
          (control_entry_lem c k ys x t one e) (ap (λ r. r.1) (sym same) ∙ h)

  -- No batch raised.
  abbrev pub AllOk : List (Outcome (Unit {0})) → Type 0
  AllOk = All λ o. o ≡ ok tt

  unless_cancelled-ok :
      (o : Outcome (Unit {0})) (c : Collector P) (rest : Collector P × List (Outcome (Unit {0})))
      → AllOk (unless_cancelled p o c rest).1
      → (o ≡ ok tt) × AllOk rest.1 × ((unless_cancelled p o c rest).0 ≡ rest.0)
  unless_cancelled-ok (ok u) c (c', os) (e, h) = (e, h, refl)
  unless_cancelled-ok (raised cancelled) c (c', os) (e, h) = absurd cc
  unless_cancelled-ok (raised value_error) c (c', os) (e, h) = absurd cc
  unless_cancelled-ok (raised key_error) c (c', os) (e, h) = absurd cc
  unless_cancelled-ok (raised runtime_error) c (c', os) (e, h) = absurd cc
  unless_cancelled-ok (raised os_error) c (c', os) (e, h) = absurd cc
  unless_cancelled-ok (raised arithmetic_error) c (c', os) (e, h) = absurd cc

  control_loop_lem :
      (css : List (List Control)) (k : Collector P) (ys : List Text) (x : ℕ) (t : Text)
      → AreUpper (joined css)
      → has_text k.active_symbols (x ∷ t) ≡ has_text ys (x ∷ t)
      → AllOk (control_loop p (entries_of css) k).1
      → has_text (control_loop p (entries_of css) k).0.active_symbols (x ∷ t)
        ≡ has_text (held ys (joined css)) (x ∷ t)
  unfolding control_loop
  control_loop_lem [] k ys x t up e h = e
  control_loop_lem (cs ∷ css) k ys x t up e h =
      let (first, others) = AreUpper-append cs (joined css) up in
      let next = control_batch p (map entry_of cs) k in
      let rest = control_loop p (entries_of css) next.0 in
      let (fine, all_fine, same) = unless_cancelled-ok next.1 next.0 rest h in
      ap (λ c. has_text c.active_symbols (x ∷ t)) same
      ∙ control_loop_lem css next.0 (held ys cs) x t others
          (control_batch_lem cs k ys x t first e fine) all_fine
      ∙ ap (λ s. has_text s (x ∷ t)) (sym (held-append_all ys cs (joined css)))

-- A collector with no active symbols.
abbrev pub unstarted : {P : Type 0} → P → Collector P
unstarted provider = record { active_symbols = []; provider = provider }

-- Of a registry that starts with no active state and no controls: after any sequence of calls, a
-- collector that starts with no active symbols, reads the controls that were published, in order
-- and in whatever batches, and leaves no batch by an exception, has for its active symbols exactly
-- those, of one character or more, whose state key is active.
pub active_symbols-perform_all :
    {Z C U P : Type 0} (z : SortedSets Z) (c : Sets C) (u : States U) (redis : IsStates u)
    (settings : Settings) (p : Provider P) (provider : P) (calls : List Call) (r : Registry Z C U)
    (batches : List (List Control)) (x : ℕ) (symbol : Text)
    → u.published r.states ≡ []
    → ((j : Text) → u.get r.states (state_key j) ≡ none)
    → joined batches ≡ u.published (perform_all z c u settings calls r).states
    → AllOk p (control_loop p (entries_of batches) (unstarted provider)).1
    → has_text
        (control_loop p (entries_of batches) (unstarted provider)).0.active_symbols
        (x ∷ symbol)
      ≡ is_active (u.get (perform_all z c u settings calls r).states (state_key (x ∷ symbol)))
active_symbols-perform_all z c u redis settings p provider calls r batches x symbol empty idle read
      fine =
    let end = perform_all-IsConsistent z c u redis settings calls r (record {
      agree = λ j. unfold has_text in rw (idle j, empty) refl;
      effective = unfold Effective in rw empty tt;
      uppercase = rw empty tt;
    }) in
    control_loop_lem p batches _ [] x symbol (subst AreUpper (sym read) end.uppercase) refl fine
    ∙ ap (λ cs. has_text (held [] cs) (x ∷ symbol)) read
    ∙ sym (end.agree (x ∷ symbol))
