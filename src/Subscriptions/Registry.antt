-- ===== src/Subscriptions/Registry.antt =====
-- subscriptions.py: the methods of `SubscriptionRegistry`. Each is one step: no other method runs
-- between the commands of one. A release task that is waiting for its grace period is its symbol in
-- `release_tasks`, and runs as a step of its own.
pub mod Upstream
pub mod Calls
pub mod Expiry
pub mod Covered
pub mod Operations
pub mod Kept
use smart_market_data_gatewa.Prelude.{
  ℕ, ◌+◌, ◌≡◌, Bool, true, false, ◌==◌, ◌&&◌, ltb, not, if◌then◌else◌, Option, none, some, List, [],
  ◌∷◌,
}
use smart_market_data_gatewa.Prelude.Text.{
  Text, text_eq, upper, sorted_texts, has_text, add_text, discard_text,
}
use smart_market_data_gatewa.Collector.{Action, Control}
use smart_market_data_gatewa.Subscriptions.Server.{SortedSets, Sets, States}
use smart_market_data_gatewa.Subscriptions.Keys.{symbol_key, state_key, last_part}

pub record Registry (Z C U : Type 0) : Type 0 where
  pub sorted : Z
  pub sets : C
  pub states : U
  pub release_tasks : List Text

pub record Settings : Type 0 where
  pub subscription_ttl_seconds : ℕ

-- "active"
abbrev pub active : Text
active = 97 ∷ 99 ∷ 116 ∷ 105 ∷ 118 ∷ 101 ∷ []

abbrev pub is_active : Option Text → Bool
is_active none = false
is_active (some v) = text_eq v active

module _ {Z C U : Type 0} (z : SortedSets Z) (c : Sets C) (u : States U) where
  -- `SET ... NX` of the state key, and the control that announces it.
  abbrev pub announced : Text → U × Bool → U
  announced symbol (s, false) = s
  announced symbol (s, true) = u.xadd s (record { action = Action.subscribe; symbol = symbol })

  abbrev pub activate : Text → U → U
  activate symbol s = announced symbol (u.set_nx s (state_key symbol) active)

  -- The round of `subscribe` for one symbol, with the script, and whether the connection was new.
  unfoldable pub subscribe_symbol : ℕ → ℕ → ℕ → Text → Registry Z C U → Registry Z C U × Bool
  subscribe_symbol connection now expires_at symbol r =
      let live = z.zremrangebyscore r.sorted (symbol_key symbol) now in
      let put = z.zadd live (symbol_key symbol) expires_at connection in
      (
        record {
          sorted = put.0;
          sets = c.sadd r.sets connection symbol;
          states =
              if z.zcard put.0 (symbol_key symbol) == 1 then activate symbol r.states else r.states;
          release_tasks = discard_text symbol r.release_tasks;
        },
        put.1,
      )

  unfoldable pub subscribe_all :
      ℕ → ℕ → ℕ → List Text → List Text → Registry Z C U → Registry Z C U × List Text
  subscribe_all connection now expires_at [] added r = (r, added)
  subscribe_all connection now expires_at (symbol ∷ symbols) added r =
      let next = subscribe_symbol connection now expires_at (upper symbol) r in
      subscribe_all connection now expires_at symbols
        (if next.1 then add_text (upper symbol) added else added) next.0

  -- `refresh_metrics` counts every sorted set, and drops what has expired from it.
  unfoldable pub refresh_keys : ℕ → List Text → Z → Z
  refresh_keys now [] s = s
  refresh_keys now (key ∷ keys) s = refresh_keys now keys (z.zremrangebyscore s key now)

  abbrev pub refresh_metrics : ℕ → Registry Z C U → Registry Z C U
  refresh_metrics now r = record r { sorted = refresh_keys now (z.scan r.sorted) r.sorted }

  abbrev refreshed : ℕ → Registry Z C U × List Text → Registry Z C U × List Text
  refreshed now (r, symbols) = (refresh_metrics now r, symbols)

  unfoldable pub subscribe :
      Settings → ℕ → List Text → ℕ → Registry Z C U → Registry Z C U × List Text
  subscribe settings connection symbols now r = refreshed now (
      subscribe_all connection now (now + settings.subscription_ttl_seconds) (sorted_texts symbols)
        [] r)

  abbrev pub schedule_release : Text → Registry Z C U → Registry Z C U
  schedule_release symbol r = record r { release_tasks = add_text symbol r.release_tasks }

  unfoldable pub unsubscribe_symbol : ℕ → ℕ → Text → Registry Z C U → Registry Z C U × Bool
  unsubscribe_symbol connection now symbol r =
      let live = z.zremrangebyscore r.sorted (symbol_key symbol) now in
      let gone = z.zrem live (symbol_key symbol) connection in
      let next = record r { sorted = gone.0; sets = c.srem r.sets connection symbol } in
      (
        if z.zcard gone.0 (symbol_key symbol) == 0 then schedule_release symbol next else next,
        gone.1,
      )

  unfoldable pub unsubscribe_all :
      ℕ → ℕ → List Text → List Text → Registry Z C U → Registry Z C U × List Text
  unsubscribe_all connection now [] removed r = (r, removed)
  unsubscribe_all connection now (symbol ∷ symbols) removed r =
      let next = unsubscribe_symbol connection now (upper symbol) r in
      unsubscribe_all connection now symbols
        (if next.1 then add_text (upper symbol) removed else removed) next.0

  unfoldable pub unsubscribe : ℕ → List Text → ℕ → Registry Z C U → Registry Z C U × List Text
  unsubscribe connection symbols now r =
      refreshed now (unsubscribe_all connection now (sorted_texts symbols) [] r)

  unfoldable pub extend_all : ℕ → ℕ → List Text → Z → Z
  extend_all connection expires_at [] s = s
  extend_all connection expires_at (symbol ∷ symbols) s =
      extend_all connection expires_at symbols
        (z.zadd s (symbol_key symbol) expires_at connection).0

  unfoldable pub heartbeat : Settings → ℕ → ℕ → Registry Z C U → Registry Z C U
  heartbeat settings connection now r = record r {
    sorted =
        extend_all connection (now + settings.subscription_ttl_seconds)
          (c.smembers r.sets connection) r.sorted;
  }

  abbrev pub left : ℕ → ℕ → List Text → Registry Z C U → Registry Z C U × List Text
  left connection now [] r = (r, [])
  left connection now (symbol ∷ symbols) r = unsubscribe connection (symbol ∷ symbols) now r

  unfoldable pub disconnect : ℕ → ℕ → Registry Z C U → Registry Z C U × List Text
  disconnect connection now r =
      let gone = left connection now (c.smembers r.sets connection) r in
      (record gone.0 { sets = c.delete gone.0.sets connection }, gone.1)

  -- `_RELEASE_SCRIPT`, and the control that announces the release.
  abbrev pub released : Text → Bool → U → U
  released symbol idle s =
      if idle && is_active (u.get s (state_key symbol))
      then u.xadd (u.del s (state_key symbol))
          (record { action = Action.unsubscribe; symbol = symbol })
      else s

  -- The end of `_release_after_grace`, when the grace period is over.
  unfoldable pub release_after_grace : Text → ℕ → Registry Z C U → Registry Z C U
  release_after_grace symbol now r =
      let live = z.zremrangebyscore r.sorted (symbol_key symbol) now in
      refresh_metrics now (record r {
        sorted = live;
        states = released symbol (z.zcard live (symbol_key symbol) == 0) r.states;
        release_tasks = discard_text symbol r.release_tasks;
      })

  unfoldable pub cleanup_key : ℕ → Text → Registry Z C U → Registry Z C U
  cleanup_key now key r =
      let live = z.zremrangebyscore r.sorted key now in
      let next = record r { sorted = live } in
      if not (z.zcard r.sorted key == 0) && z.zcard live key == 0
      then schedule_release (last_part key) next
      else next

  unfoldable pub cleanup_keys : ℕ → List Text → Registry Z C U → Registry Z C U
  cleanup_keys now [] r = r
  cleanup_keys now (key ∷ keys) r = cleanup_keys now keys (cleanup_key now key r)

  unfoldable pub cleanup_expired : ℕ → Registry Z C U → Registry Z C U
  cleanup_expired now r = refresh_metrics now (cleanup_keys now (z.scan r.sorted) r)
