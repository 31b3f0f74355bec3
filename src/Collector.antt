-- ===== src/Collector.antt =====
-- collector.py: `CollectorService`, its set of active symbols and its provider. The provider is a
-- parameter, and so is whether its health is `connected`.
pub mod Loop
pub mod Supervision
pub mod Redelivered
pub mod Tests
use smart_market_data_gatewa.Prelude.{
  Bool, ◌&&◌, not, if◌then◌else◌, Option, none, some, List, [], ◌∷◌,
}
use smart_market_data_gatewa.Prelude.Text.{Text, has_text, add_text, discard_text, upper}
use smart_market_data_gatewa.Prelude.Outcome.{Outcome, Error, ok, raised}
use smart_market_data_gatewa.Domain.Quote.{QuoteEvent}

pub data Action : Type 0 where
  subscribe unsubscribe : Action

-- A control message: the action and the symbol.
pub record Control : Type 0 where
  pub action : Action
  pub symbol : Text

-- What the collector calls of a provider.
pub record Provider (P : Type 0) : Type 0 where
  pub connected : P → Bool
  pub subscribe_to : P → List Text → P × Outcome (Unit {0})
  pub unsubscribe_from : P → List Text → P × Outcome (Unit {0})
  pub connect : P → P × Outcome (Unit {0})
  -- the events until the stream ends, or until the provider or the store raises
  pub events : P → P × List QuoteEvent × Outcome (Unit {0})
  -- with what it raises suppressed
  pub disconnect : P → P

pub record Collector (P : Type 0) : Type 0 where
  pub active_symbols : List Text
  pub provider : P

-- `active_symbols` after a control message.
abbrev pub noted : Action → Text → List Text → List Text
noted subscribe symbol active = add_text symbol active
noted unsubscribe symbol active = discard_text symbol active

-- Whether the message changes the set.
abbrev pub changes : Action → Text → List Text → Bool
changes subscribe symbol active = not (has_text active symbol)
changes unsubscribe symbol active = has_text active symbol

module _ {P : Type 0} (p : Provider P) where
  abbrev pub call : Action → Text → P → P × Outcome (Unit {0})
  call subscribe symbol provider = p.subscribe_to provider (symbol ∷ [])
  call unsubscribe symbol provider = p.unsubscribe_from provider (symbol ∷ [])

  abbrev pub called : List Text → P × Outcome (Unit {0}) → Collector P × Outcome (Unit {0})
  called active (provider, r) = (record { active_symbols = active; provider = provider }, r)

  unfoldable pub apply_control : Action → Text → Collector P → Collector P × Outcome (Unit {0})
  apply_control action symbol c = called (noted action symbol c.active_symbols) (
      if changes action symbol c.active_symbols && p.connected c.provider
      then call action symbol c.provider
      else (c.provider, ok tt))

  -- What becomes of an entry of the control stream.
  pub data Verdict : Type 0 where
    acknowledged dead_lettered : Verdict
    pending : Error → Verdict

  abbrev pub judged : Collector P × Outcome (Unit {0}) → Collector P × Verdict
  judged (c, ok u) = (c, acknowledged)
  judged (c, raised e) = (c, pending e)

  -- The body of the loop over control messages, given `fields.get("action")` if it is one of the
  -- two actions, and `fields.get("symbol", "")`. An entry whose call raised is not acknowledged.
  abbrev pub control_upper : Option Action → Text → Collector P → Collector P × Verdict
  control_upper none symbol c = (c, dead_lettered)
  control_upper (some action) [] c = (c, dead_lettered)
  control_upper (some action) (x ∷ symbol) c = judged (apply_control action (x ∷ symbol) c)

  unfoldable pub control_entry : Option Action → Text → Collector P → Collector P × Verdict
  control_entry action symbol c = control_upper action (upper symbol) c
