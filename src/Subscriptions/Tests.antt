-- ===== src/Subscriptions/Tests.antt =====
-- Two connections, a symbol and a server in memory.
use smart_market_data_gatewa.Prelude.{
  ℕ, zero, suc, ◌≡◌, ◌≤◌, ◌↔◌, refl, subst, false, ◌==◌, if◌then◌else◌, none, some, List, [], ◌∷◌,
  arith,
}
use smart_market_data_gatewa.Prelude.Text.{
  Text, text_eq, text_eq→eq, has_text, upper, sorted_texts, add_text, discard_text, insert_text,
}
use smart_market_data_gatewa.Prelude.Outcome.{ok}
use smart_market_data_gatewa.Collector.{Action, Control, Provider, control_entry, apply_control}
use smart_market_data_gatewa.Collector.Loop.{control_loop, control_batch}
use smart_market_data_gatewa.Subscriptions.Server.{above}
use smart_market_data_gatewa.Subscriptions.Keys.{
  symbol_key, state_key, has_colon, last_part, last_part-symbol_key,
}
use smart_market_data_gatewa.Subscriptions.Registry.{
  Registry, Settings, active, is_active, subscribe, subscribe_all, subscribe_symbol, refresh_keys,
  heartbeat, refresh_metrics, disconnect, unsubscribe, unsubscribe_all, unsubscribe_symbol,
  cleanup_keys, cleanup_key, cleanup_expired, release_after_grace,
}
use smart_market_data_gatewa.Subscriptions.Registry.Upstream.{IsAnnounced, Effective}
use smart_market_data_gatewa.Subscriptions.Registry.Calls.{
  Call, perform, perform_all, perform_all-IsConsistent,
}
use smart_market_data_gatewa.Subscriptions.Registry.Expiry.{
  cleanup_expired-refresh_metrics, release_after_grace_live,
}
use smart_market_data_gatewa.Subscriptions.Registry.Covered.{IsCovered}
use smart_market_data_gatewa.Subscriptions.Registry.Kept.{
  AreTimely, IsTimely, IsAlive, perform_all-IsCovered, heartbeat_uncovered,
}
use smart_market_data_gatewa.Subscriptions.Collected.{
  entries_of, unstarted, active_symbols-perform_all,
}
use smart_market_data_gatewa.Subscriptions.Memory.{
  Table, Connections, Keyed, sorted_sets, sorted_sets-IsSortedSets, connections, keyed,
  keyed-IsStates, nth, put, purge, update, count, lookup, keys,
}

-- "BTC"
abbrev btc : Text
btc = 66 ∷ 84 ∷ 67 ∷ []

abbrev settings : Settings
settings = record { subscription_ttl_seconds = 60 }

abbrev idle : Registry Table Connections Keyed
idle = record {
  sorted = [];
  sets = λ n. [];
  states = record { held = λ k. none; log = [] };
  release_tasks = [];
}

-- Two connections come, the one leaves, the other stays away until it has expired, and the symbol
-- is released.
abbrev calls : List Call
calls =
    Call.subscribing 1 (btc ∷ []) 100
    ∷ Call.subscribing 2 (btc ∷ []) 110
    ∷ Call.disconnecting 1 120
    ∷ Call.cleaning 200
    ∷ Call.releasing btc 230
    ∷ []

idle-IsAnnounced : IsAnnounced keyed idle.states
unfolding Effective has_text
idle-IsAnnounced = record { agree = λ symbol. refl; effective = tt; uppercase = tt }

consistent_example :
    IsAnnounced keyed (perform_all sorted_sets connections keyed settings calls idle).states
consistent_example =
    perform_all-IsConsistent sorted_sets connections keyed keyed-IsStates settings calls idle
      idle-IsAnnounced

-- A provider that is never connected.
abbrev deaf : Provider (Unit {0})
deaf = record {
  connected = λ p. false;
  subscribe_to = λ p symbols. (p, ok tt);
  unsubscribe_from = λ p symbols. (p, ok tt);
  connect = λ p. (p, ok tt);
  events = λ p. (p, [], ok tt);
  disconnect = λ p. p;
}

-- The two controls of the calls, a batch for each.
abbrev batches : List (List Control)
batches =
    (record { action = Action.subscribe; symbol = btc } ∷ [])
    ∷ (record { action = Action.unsubscribe; symbol = btc } ∷ [])
    ∷ []

collected_example :
    has_text (control_loop deaf (entries_of batches) (unstarted tt)).0.active_symbols btc
    ≡ is_active (
        keyed.get
          (perform_all sorted_sets connections keyed settings calls idle).states
          (state_key btc))
unfolding control_loop control_batch control_entry apply_control upper has_text add_text
    discard_text perform_all subscribe subscribe_all subscribe_symbol sorted_texts insert_text
    disconnect unsubscribe unsubscribe_all unsubscribe_symbol cleanup_expired cleanup_keys
    cleanup_key release_after_grace refresh_keys lookup nth count update keys symbol_key put purge
    state_key
collected_example =
    active_symbols-perform_all sorted_sets connections keyed keyed-IsStates settings deaf tt calls
      idle batches 66 (84 ∷ 67 ∷ []) refl (λ j. refl) refl (refl, (refl, tt))

key_example : (last_part (symbol_key btc) ≡ btc) ↔ (has_colon btc ≡ false)
key_example = last_part-symbol_key btc

-- The first connection's subscription, which expires at 160.
abbrev one_left : Registry Table Connections Keyed
one_left = record {
  sorted = (symbol_key btc, none ∷ some 160 ∷ []) ∷ [];
  sets = λ n. if n == 1 then btc ∷ [] else [];
  states = record { held = λ k. if text_eq (state_key btc) k then some active else none; log = [] };
  release_tasks = [];
}

expired :
    (now : ℕ) (k : Text) (m : ℕ)
    → 160 ≤ now
    → above now (sorted_sets.zscore one_left.sorted k m) ≡ none
unfolding lookup nth
expired now k zero h = ground arith
expired now k (suc zero) h = ground arith
expired now k (suc (suc m)) h = ground arith

leak_example :
    (cleanup_expired sorted_sets connections keyed 300
      (refresh_metrics sorted_sets connections keyed 200 one_left)).release_tasks
    ≡ one_left.release_tasks
leak_example =
    cleanup_expired-refresh_metrics sorted_sets connections keyed sorted_sets-IsSortedSets 200 300
      one_left (λ k m. expired 200 k m (omega arith))

spared_example :
    (release_after_grace sorted_sets connections keyed btc 150 one_left).states ≡ one_left.states
unfolding lookup nth symbol_key
spared_example =
    release_after_grace_live sorted_sets connections keyed sorted_sets-IsSortedSets btc 150 1 160
      one_left refl (omega arith)

idle-IsCovered : IsCovered sorted_sets connections keyed idle
unfolding lookup nth
idle-IsCovered = record { covered = λ symbol m v e. absurd cc; plain = λ symbol v e. absurd cc }

-- A connection comes, says that it is alive, and leaves.
abbrev visit : List Call
visit =
    Call.subscribing 1 (btc ∷ []) 100
    ∷ Call.beating 1 130
    ∷ Call.disconnecting 1 140
    ∷ Call.releasing btc 150
    ∷ []

come : Registry Table Connections Keyed
come = perform sorted_sets connections keyed settings (Call.subscribing 1 (btc ∷ []) 100) idle

come-IsAlive : IsAlive sorted_sets connections keyed 1 come
unfolding IsAlive come subscribe subscribe_all subscribe_symbol sorted_texts insert_text upper
    has_text add_text symbol_key lookup update put nth purge keys refresh_keys discard_text count
come-IsAlive symbol i =
    let same : btc ≡ symbol = text_eq→eq btc symbol (ground (arith, i)) in
    subst (λ k. (w : ℕ) × (sorted_sets.zscore come.sorted (symbol_key k) 1 ≡ some w)) same
      (160, refl)

covered_example :
    IsCovered sorted_sets connections keyed
      (perform_all sorted_sets connections keyed settings visit idle)
unfolding AreTimely IsTimely come
covered_example =
    perform_all-IsCovered sorted_sets connections keyed sorted_sets-IsSortedSets keyed-IsStates
      settings visit idle (tt, (come-IsAlive, (tt, (tt, tt)))) idle-IsCovered

-- The same after a release.
abbrev gone : Registry Table Connections Keyed
gone = record one_left { sorted = []; states = record { held = λ k. none; log = [] } }

revived_example :
    (sorted_sets.zscore
        (heartbeat sorted_sets connections keyed settings 1 300 gone).sorted
        (symbol_key btc)
        1
      ≡ some 360)
    × (keyed.get
          (heartbeat sorted_sets connections keyed settings 1 300 gone).states
          (state_key btc)
        ≡ none)
unfolding has_text
revived_example =
    heartbeat_uncovered sorted_sets connections keyed sorted_sets-IsSortedSets keyed-IsStates
      settings 1 300 btc gone refl refl
