-- ===== src/Collector/Redelivered.antt =====
-- A control message that comes again after the provider refused it.
use smart_market_data_gatewa.Prelude.{
  ◌≡◌, ◌∙◌, refl, ap, Bool, false, ◌&&◌, if◌then◌else◌, List, arith,
}
use smart_market_data_gatewa.Prelude.Text.{
  Text, text_eq_refl, has_text-add_text, has_text-discard_text,
}
use smart_market_data_gatewa.Prelude.Outcome.{Outcome, ok}
use smart_market_data_gatewa.Collector.{
  Action, subscribe, unsubscribe, Provider, Collector, noted, changes, call, called, apply_control,
}

changes-noted :
    (action : Action) (symbol : Text) (active : List Text)
    → changes action symbol (noted action symbol active) ≡ false
changes-noted subscribe symbol active =
    ground (arith, has_text-add_text symbol symbol active, text_eq_refl symbol)
changes-noted unsubscribe symbol active =
    ground (arith, has_text-discard_text symbol symbol active, text_eq_refl symbol)

module _ {P : Type 0} (p : Provider P) where
  called_symbols :
      (active : List Text) (r : P × Outcome (Unit {0}))
      → (called p active r).0.active_symbols ≡ active
  called_symbols active (provider, o) = refl

  -- A control message that is applied again, whatever the provider answered the first time, does
  -- not call the provider: the call returns, and the provider is as the first call left it.
  pub apply_control-apply_control :
      (action : Action) (symbol : Text) (c : Collector P)
      → let first = (apply_control p action symbol c).0 in
        ((apply_control p action symbol first).1 ≡ ok tt)
        × ((apply_control p action symbol first).0.provider ≡ first.provider)
  unfolding apply_control
  apply_control-apply_control action symbol c =
      let same = changes-noted action symbol c.active_symbols in
      let first = (apply_control p action symbol c).0 in
      let settled : changes action symbol first.active_symbols ≡ false =
        ap (changes action symbol) (
          called_symbols (noted action symbol c.active_symbols) (
            if changes action symbol c.active_symbols && p.connected c.provider
            then call p action symbol c.provider
            else (c.provider, ok tt)))
        ∙ same in
      let again = λ (b : Bool). called p (noted action symbol first.active_symbols) (
        if b && p.connected first.provider
        then call p action symbol first.provider
        else (first.provider, ok tt)) in
      (ap (λ b. (again b).1) settled, ap (λ b. (again b).0.provider) settled)
