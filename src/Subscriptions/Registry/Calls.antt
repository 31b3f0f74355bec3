-- ===== src/Subscriptions/Registry/Calls.antt =====
-- Sequences of calls of the registry, and what they announce.
use smart_market_data_gatewa.Prelude.{
  ℕ, ◌≡◌, ◌∙◌, sym, refl, subst, Bool, true, false, if◌then◌else◌, List, [], ◌∷◌, arith,
}
use smart_market_data_gatewa.Prelude.Text.{Text, upper, upper-upper, sorted_texts}
use smart_market_data_gatewa.Subscriptions.Server.{SortedSets, Sets, States, IsStates}
use smart_market_data_gatewa.Subscriptions.Registry.{
  Registry, Settings, subscribe_symbol, subscribe_all, subscribe, refresh_metrics,
  unsubscribe_symbol, unsubscribe_all, unsubscribe, heartbeat, left, disconnect,
  release_after_grace, cleanup_key, cleanup_keys, cleanup_expired,
}
use smart_market_data_gatewa.Subscriptions.Registry.Upstream.{
  IsUpper, IsAnnounced, activate-IsAnnounced, released-IsAnnounced,
}

-- The calls of the registry, a release task that runs among them.
pub data Call : Type 0 where
  subscribing unsubscribing : ℕ → List Text → ℕ → Call
  beating disconnecting : ℕ → ℕ → Call
  releasing : Text → ℕ → Call
  cleaning refreshing : ℕ → Call

module _ {Z C U : Type 0} (z : SortedSets Z) (c : Sets C) (u : States U) (settings : Settings) where
  abbrev pub perform : Call → Registry Z C U → Registry Z C U
  perform (subscribing connection symbols now) r =
      (subscribe z c u settings connection symbols now r).0
  perform (unsubscribing connection symbols now) r = (unsubscribe z c u connection symbols now r).0
  perform (beating connection now) r = heartbeat z c u settings connection now r
  perform (disconnecting connection now) r = (disconnect z c u connection now r).0
  perform (releasing symbol now) r = release_after_grace z c u symbol now r
  perform (cleaning now) r = cleanup_expired z c u now r
  perform (refreshing now) r = refresh_metrics z c u now r

  unfoldable pub perform_all : List Call → Registry Z C U → Registry Z C U
  perform_all [] r = r
  perform_all (x ∷ xs) r = perform_all xs (perform x r)

module _ {Z C U : Type 0} (z : SortedSets Z) (c : Sets C) (u : States U) (redis : IsStates u)
    (settings : Settings) where
  -- The registry's states and stream agree.
  abbrev pub IsConsistent : Registry Z C U → Type 0
  IsConsistent r = IsAnnounced u r.states

  subscribe_symbol-IsConsistent :
      (connection now expires_at : ℕ) (symbol : Text) (r : Registry Z C U)
      → IsUpper symbol
      → IsConsistent r
      → IsConsistent (subscribe_symbol z c u connection now expires_at symbol r).0
  unfolding subscribe_symbol
  subscribe_symbol-IsConsistent connection now expires_at symbol r up h =
      either _ (activate-IsAnnounced z c u redis symbol r.states up h) h
    where
      either :
          (b : Bool) {s t : U}
          → IsAnnounced u s
          → IsAnnounced u t
          → IsAnnounced u (if b then s else t)
      either true a b = a
      either false a b = b

  subscribe_all-IsConsistent :
      (connection now expires_at : ℕ) (symbols added : List Text) (r : Registry Z C U)
      → IsConsistent r
      → IsConsistent (subscribe_all z c u connection now expires_at symbols added r).0
  unfolding subscribe_all
  subscribe_all-IsConsistent connection now expires_at [] added r h = h
  subscribe_all-IsConsistent connection now expires_at (symbol ∷ symbols) added r h =
      subscribe_all-IsConsistent connection now expires_at symbols _ _ (
        subscribe_symbol-IsConsistent connection now expires_at (upper symbol) r
          (upper-upper symbol) h)

  unsubscribe_symbol_states :
      (connection now : ℕ) (symbol : Text) (r : Registry Z C U)
      → (unsubscribe_symbol z c u connection now symbol r).0.states ≡ r.states
  unfolding unsubscribe_symbol
  unsubscribe_symbol_states connection now symbol r = ground arith

  unsubscribe_all_states :
      (connection now : ℕ) (symbols removed : List Text) (r : Registry Z C U)
      → (unsubscribe_all z c u connection now symbols removed r).0.states ≡ r.states
  unfolding unsubscribe_all
  unsubscribe_all_states connection now [] removed r = refl
  unsubscribe_all_states connection now (symbol ∷ symbols) removed r =
      unsubscribe_all_states connection now symbols _ _
      ∙ unsubscribe_symbol_states connection now (upper symbol) r

  left_states :
      (connection now : ℕ) (symbols : List Text) (r : Registry Z C U)
      → (left z c u connection now symbols r).0.states ≡ r.states
  unfolding unsubscribe
  left_states connection now [] r = refl
  left_states connection now (symbol ∷ symbols) r =
      unsubscribe_all_states connection now (sorted_texts (symbol ∷ symbols)) [] r

  cleanup_key_states :
      (now : ℕ) (key : Text) (r : Registry Z C U) → (cleanup_key z c u now key r).states ≡ r.states
  unfolding cleanup_key
  cleanup_key_states now key r = ground arith

  cleanup_keys_states :
      (now : ℕ) (keys : List Text) (r : Registry Z C U)
      → (cleanup_keys z c u now keys r).states ≡ r.states
  unfolding cleanup_keys
  cleanup_keys_states now [] r = refl
  cleanup_keys_states now (key ∷ keys) r =
      cleanup_keys_states now keys (cleanup_key z c u now key r) ∙ cleanup_key_states now key r

  perform-IsConsistent :
      (x : Call) (r : Registry Z C U) → IsConsistent r → IsConsistent (perform z c u settings x r)
  unfolding subscribe unsubscribe heartbeat disconnect release_after_grace cleanup_expired
  perform-IsConsistent (subscribing connection symbols now) r h =
      subscribe_all-IsConsistent connection now _ (sorted_texts symbols) [] r h
  perform-IsConsistent (unsubscribing connection symbols now) r h =
      subst (IsAnnounced u)
        (sym (unsubscribe_all_states connection now (sorted_texts symbols) [] r)) h
  perform-IsConsistent (beating connection now) r h = h
  perform-IsConsistent (disconnecting connection now) r h =
      subst (IsAnnounced u) (sym (left_states connection now (c.smembers r.sets connection) r)) h
  perform-IsConsistent (releasing symbol now) r h =
      released-IsAnnounced z c u redis symbol _ r.states h
  perform-IsConsistent (cleaning now) r h =
      subst (IsAnnounced u) (sym (cleanup_keys_states now (z.scan r.sorted) r)) h
  perform-IsConsistent (refreshing now) r h = h

  -- After any sequence of calls on a registry whose state keys say what its stream of controls
  -- leaves active, and whose stream has no redundant control and only symbols in upper case, that is
  -- still so.
  pub perform_all-IsConsistent :
      (xs : List Call) (r : Registry Z C U)
      → IsConsistent r
      → IsConsistent (perform_all z c u settings xs r)
  unfolding perform_all
  perform_all-IsConsistent [] r h = h
  perform_all-IsConsistent (x ∷ xs) r h =
      perform_all-IsConsistent xs (perform z c u settings x r) (perform-IsConsistent x r h)
