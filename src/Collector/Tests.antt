-- ===== src/Collector/Tests.antt =====
-- A provider that refuses every call.
use smart_market_data_gatewa.Prelude.{
  ℕ, ◌+◌, ◌/◌, ◌≡◌, refl, true, false, List, [], ◌∷◌, ◌++◌, arith, length,
}
use smart_market_data_gatewa.Prelude.Text.{Text}
use smart_market_data_gatewa.Prelude.Outcome.{ok, raised, os_error}
use smart_market_data_gatewa.Collector.{Action, Provider, Collector, apply_control}
use smart_market_data_gatewa.Collector.Redelivered.{apply_control-apply_control}
use smart_market_data_gatewa.Collector.Supervision.{Supervisor, supervise_all}
use smart_market_data_gatewa.Collector.Supervision.Backoff.{IsDoubling, supervise_all_down}

-- Its state counts the calls; its health is `connected` all the same.
abbrev down : Provider ℕ
down = record {
  connected = λ p. true;
  subscribe_to = λ p symbols. (p + 1, raised os_error);
  unsubscribe_from = λ p symbols. (p + 1, raised os_error);
  connect = λ p. (p + 1, raised os_error);
  events = λ p. (p, [], ok tt);
  disconnect = λ p. p;
}

abbrev btc : Text
btc = 66 ∷ 84 ∷ 67 ∷ []

abbrev collector : Collector ℕ
collector = record { active_symbols = []; provider = 0 }

redelivered_example :
    let first = (apply_control down Action.subscribe btc collector).0 in
    ((apply_control down Action.subscribe btc first).1 ≡ ok tt)
    × ((apply_control down Action.subscribe btc first).0.provider ≡ first.provider)
redelivered_example = apply_control-apply_control down Action.subscribe btc collector

abbrev supervisor : Supervisor ℕ
supervisor = record {
  collector = collector;
  looping = true;
  backoff = 500000;
  outage_started = false;
  waits = [];
  published = [];
  state_connected = false;
  reconnects = 0;
}

abbrev half : ℕ → ℕ → ℕ
half draw hi = hi / 2

down_example :
    ((supervise_all down half 8 supervisor).looping ≡ true)
    × ((ws : List ℕ) × (length ws ≡ 8)
        × IsDoubling 0 ws
        × ((supervise_all down half 8 supervisor).waits ≡ supervisor.waits ++ ws))
    × ((supervise_all down half 8 supervisor).reconnects ≡ supervisor.reconnects + 8)
    × ((supervise_all down half 8 supervisor).published ≡ supervisor.published)
down_example =
    supervise_all_down down half (λ draw hi. omega arith) 8 supervisor (λ x. refl) refl refl
