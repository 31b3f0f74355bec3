-- ===== src/Collector/Supervision.antt =====
-- collector.py: `_provider_loop`. A pass of the loop connects the provider, subscribes it to the
-- active symbols, publishes its events, and waits when that has ended. Times are in microseconds.
-- `random.uniform(0.0, hi)` is a parameter of the number of the draw and of `hi`.
pub mod Backoff
use smart_market_data_gatewa.Prelude.{
  ℕ, zero, suc, ◌+◌, ◌*◌, ◌/◌, ◌^◌, ◌≤◌, ◌≡◌, ◌∙◌, sym, refl, ap, min, Bool, true, false,
  if◌then◌else◌, Option, none, some, List, [], ◌∷◌, ◌++◌, arith,
}
use smart_market_data_gatewa.Prelude.Text.{Text, sorted_texts}
use smart_market_data_gatewa.Prelude.Outcome.{
  Outcome, Error, ok, raised, value_error, key_error, runtime_error, os_error, arithmetic_error,
  cancelled,
}
use smart_market_data_gatewa.Domain.Quote.{QuoteEvent}
use smart_market_data_gatewa.Collector.{Provider, Collector}

-- The collector with the loop's variables: whether the loop runs, the back-off, whether an outage
-- has started, the waits so far, the published quotes, and the state and the count in Redis.
pub record Supervisor (P : Type 0) : Type 0 where
  pub collector : Collector P
  pub looping : Bool
  pub backoff : ℕ
  pub outage_started : Bool
  pub waits : List ℕ
  pub published : List QuoteEvent
  pub state_connected : Bool
  pub reconnects : ℕ

module _ {P : Type 0} (p : Provider P) (uniform : ℕ → ℕ → ℕ) where
  abbrev pub provided : Supervisor P → P → Supervisor P
  provided s provider = record s { collector = record s.collector { provider = provider } }

  -- The handler of an exception that is no cancellation. It waits for the back-off and a jitter of
  -- up to a quarter of it.
  abbrev pub disconnected : Supervisor P → Supervisor P
  disconnected s = record (provided s (p.disconnect s.collector.provider)) {
    state_connected = false;
    reconnects = s.reconnects + 1;
    outage_started = true;
    waits = s.waits ++ (s.backoff + uniform s.reconnects (s.backoff / 4)) ∷ [];
    backoff = min 30000000 (s.backoff * 2);
  }

  abbrev pub failed : Error → Supervisor P → Supervisor P
  failed cancelled s = record s { looping = false }
  failed value_error s = disconnected s
  failed key_error s = disconnected s
  failed runtime_error s = disconnected s
  failed os_error s = disconnected s
  failed arithmetic_error s = disconnected s

  abbrev up : Supervisor P → Supervisor P
  up s = record s { state_connected = true; outage_started = false; backoff = 500000 }

  -- A stream that ends raises a ConnectionError.
  abbrev streamed : Supervisor P → P × List QuoteEvent × Outcome (Unit {0}) → Supervisor P
  streamed s (provider, events, ok u) =
      disconnected (provided (record s { published = s.published ++ events }) provider)
  streamed s (provider, events, raised e) =
      failed e (provided (record s { published = s.published ++ events }) provider)

  abbrev subscribed : Supervisor P → P × Outcome (Unit {0}) → Supervisor P
  subscribed s (provider, ok u) = streamed (up (provided s provider)) (p.events provider)
  subscribed s (provider, raised e) = failed e (provided s provider)

  abbrev all_subscribed : P → List Text → P × Outcome (Unit {0})
  all_subscribed provider [] = (provider, ok tt)
  all_subscribed provider (symbol ∷ symbols) =
      p.subscribe_to provider (sorted_texts (symbol ∷ symbols))

  abbrev connected : Supervisor P → P × Outcome (Unit {0}) → Supervisor P
  connected s (provider, ok u) = subscribed s (all_subscribed provider s.collector.active_symbols)
  connected s (provider, raised e) = failed e (provided s provider)

  -- A pass, while the loop runs.
  unfoldable pub supervise : Supervisor P → Supervisor P
  supervise s = if s.looping then connected s (p.connect s.collector.provider) else s

  unfoldable pub supervise_all : ℕ → Supervisor P → Supervisor P
  supervise_all zero s = s
  supervise_all (suc n) s = supervise_all n (supervise s)
