-- ===== src/Collector/Loop.antt =====
-- collector.py: `_control_loop` over the batches that `read_group` answers. The command itself asks
-- for new entries only, so what a batch leaves is not read again.
use smart_market_data_gatewa.Prelude.{Option, List, [], ◌∷◌}
use smart_market_data_gatewa.Prelude.Text.{Text}
use smart_market_data_gatewa.Prelude.Outcome.{
  Outcome, ok, raised, value_error, key_error, runtime_error, os_error, arithmetic_error, cancelled,
}
use smart_market_data_gatewa.Collector.{
  Action, Provider, Collector, Verdict, acknowledged, dead_lettered, pending, control_entry,
}

-- `fields.get("action")`, if it is one of the two actions, and `fields.get("symbol", "")`.
pub record Entry : Type 0 where
  pub action : Option Action
  pub symbol : Text

module _ {P : Type 0} (p : Provider P) where
  abbrev pub error_of : Verdict p → Outcome (Unit {0})
  error_of acknowledged = ok tt
  error_of dead_lettered = ok tt
  error_of (pending e) = raised e

  -- A raise leaves the `for` loop: the other entries of the batch are not looked at.
  abbrev pub unless_raised :
      Outcome (Unit {0})
      → Collector P
      → Collector P × Outcome (Unit {0})
      → Collector P × Outcome (Unit {0})
  unless_raised (ok u) c rest = rest
  unless_raised (raised e) c rest = (c, raised e)

  -- The `for` loop over one batch.
  unfoldable pub control_batch : List Entry → Collector P → Collector P × Outcome (Unit {0})
  control_batch [] c = (c, ok tt)
  control_batch (entry ∷ entries) c =
      let next = control_entry p entry.action entry.symbol c in
      let rest = control_batch entries next.0 in unless_raised (error_of next.1) next.0 rest

  -- The `while` loop goes on after any exception but a cancellation.
  abbrev pub unless_cancelled :
      Outcome (Unit {0})
      → Collector P
      → Collector P × List (Outcome (Unit {0}))
      → Collector P × List (Outcome (Unit {0}))
  unless_cancelled (ok u) c (c', os) = (c', ok u ∷ os)
  unless_cancelled (raised cancelled) c rest = (c, raised cancelled ∷ [])
  unless_cancelled (raised value_error) c (c', os) = (c', raised value_error ∷ os)
  unless_cancelled (raised key_error) c (c', os) = (c', raised key_error ∷ os)
  unless_cancelled (raised runtime_error) c (c', os) = (c', raised runtime_error ∷ os)
  unless_cancelled (raised os_error) c (c', os) = (c', raised os_error ∷ os)
  unless_cancelled (raised arithmetic_error) c (c', os) = (c', raised arithmetic_error ∷ os)

  -- The collector after a list of batches, and what came of each batch.
  unfoldable pub control_loop :
      List (List Entry) → Collector P → Collector P × List (Outcome (Unit {0}))
  control_loop [] c = (c, [])
  control_loop (batch ∷ batches) c =
      let next = control_batch batch c in
      let rest = control_loop batches next.0 in unless_cancelled next.1 next.0 rest
