-- ===== src/Qos/Hub/Agreement.antt =====
-- Every method of the hub keeps its subscription index right.
use smart_market_data_gatewa.Prelude.{
  ℕ, ◌≡◌, ◌≤◌, ◌<◌, refl, false, not, ◌&&◌, ◌||◌, ◌==◌, if◌then◌else◌, Option, none, some, List, [],
  arith, contains, length, ap,
}
use smart_market_data_gatewa.Prelude.Dict.{get, put, get-put, get-remove}
use smart_market_data_gatewa.Prelude.Outcome.{ok, raised, value_error, key_error}
use smart_market_data_gatewa.Qos.Hub.{
  Hub, Session, MaxSymbols, validate_symbol_count, union, minus, both, discard_all, index_all,
  unindex_all, add, remove_session, removed, subscribe, unsubscribe,
}
use smart_market_data_gatewa.Qos.Hub.Index.{
  listed, wants, IsLean, listed-index_all, listed-unindex_all, index_all-IsLean, unindex_all-IsLean,
  contains-union, contains-minus, contains-both, contains-discard_all, union-minus,
  length-discard_all,
}

pub record IsIndexed (max_symbols : MaxSymbols) (hub : Hub) : Type 0 where
  pub agree : (s c : ℕ) → listed hub.symbol_sessions s c ≡ wants (get hub.sessions c) s
  pub lean : IsLean hub.symbol_sessions
  pub limited :
      (c : ℕ) (x : Session)
      → get hub.sessions c ≡ some x
      → length x.subscriptions ≤ max_symbols x.tier

module _ (max_symbols : MaxSymbols) where
  -- Adding a session that is new to the hub and has no subscriptions yet keeps the index right.
  pub add-IsIndexed :
      (hub : Hub) (x : Session)
      → get hub.sessions x.connection_id ≡ none
      → x.subscriptions ≡ []
      → IsIndexed max_symbols hub
      → IsIndexed max_symbols (add hub x)
  unfolding add contains
  add-IsIndexed hub x n e v = record {
    agree = λ s c. ground (arith, get-put hub.sessions x.connection_id c x, v.agree s c);
    lean = v.lean;
    limited = λ c y p. ground (arith, get-put hub.sessions x.connection_id c x, v.limited c y);
  }

  removed-IsIndexed :
      (hub : Hub) (cid : ℕ) (o : Option Session)
      → get hub.sessions cid ≡ o
      → IsIndexed max_symbols hub
      → IsIndexed max_symbols (removed hub cid o).0
  removed-IsIndexed hub cid none p v = v
  removed-IsIndexed hub cid (some x) p v = record {
    agree = λ s c. ground (
      arith,
      get-remove hub.sessions cid c,
      listed-unindex_all cid hub.symbol_sessions x.subscriptions s c,
      v.agree s c,
    );
    lean = unindex_all-IsLean cid hub.symbol_sessions x.subscriptions v.lean;
    limited = λ c y q. ground (arith, get-remove hub.sessions cid c, v.limited c y);
  }

  -- Removing a session, or one that is not there, keeps the index right.
  pub remove_session-IsIndexed :
      (hub : Hub) (cid : ℕ)
      → IsIndexed max_symbols hub
      → IsIndexed max_symbols (remove_session hub cid).0
  unfolding remove_session
  remove_session-IsIndexed hub cid v = removed-IsIndexed hub cid (get hub.sessions cid) refl v

  -- Subscribing a connection of the hub within its tier's limit returns the symbols that are new
  -- to it; it is then subscribed to those and to what it was, and no other session is touched.
  pub subscribe_lem :
      (hub : Hub) (cid : ℕ) (symbols : List ℕ) (x : Session)
      → IsIndexed max_symbols hub
      → get hub.sessions cid ≡ some x
      → length (union x.subscriptions symbols) ≤ max_symbols x.tier
      → (hub' : Hub) × (added : List ℕ) × (subscribe max_symbols hub cid symbols ≡ ok (hub', added))
        × IsIndexed max_symbols hub'
        × ((s : ℕ) → contains added s ≡ (contains symbols s && not (contains x.subscriptions s)))
        × ((s c : ℕ)
            → wants (get hub'.sessions c) s
              ≡ ((cid == c && contains symbols s) || wants (get hub.sessions c) s))
  unfolding subscribe validate_symbol_count
  subscribe_lem hub cid symbols x v p fits =
      let added = minus symbols x.subscriptions in
      let x' : Session = record x { subscriptions = union x.subscriptions added } in
      let got = λ (c : ℕ). get-put hub.sessions cid c x' in
      let subs = λ (s : ℕ). contains-union x.subscriptions added s in
      let new = λ (s : ℕ). contains-minus symbols x.subscriptions s in
      (
        record {
          sessions = put hub.sessions cid x';
          symbol_sessions = index_all cid hub.symbol_sessions added;
        },
        added,
        ground arith,
        record {
          agree = λ s c. ground (
            arith,
            got c,
            subs s,
            listed-index_all cid hub.symbol_sessions added s c,
            v.agree s c,
          );
          lean = index_all-IsLean cid hub.symbol_sessions added v.lean;
          limited = λ c y q.
              ground (arith, got c, v.limited c y, ap length (union-minus x.subscriptions symbols));
        },
        new,
        λ s c. ground (arith, got c, subs s, new s),
      )

  -- Of an unknown connection `subscribe` is a KeyError, and past the tier's limit a ValueError.
  pub subscribe_refusals :
      (hub : Hub) (cid : ℕ) (symbols : List ℕ)
      → (get hub.sessions cid ≡ none → subscribe max_symbols hub cid symbols ≡ raised key_error)
        × ((x : Session)
            → get hub.sessions cid ≡ some x
            → max_symbols x.tier < length (union x.subscriptions symbols)
            → subscribe max_symbols hub cid symbols ≡ raised value_error)
  unfolding subscribe validate_symbol_count
  subscribe_refusals hub cid symbols = (λ p. ground arith, λ x p h. ground arith)

  -- Unsubscribing a connection of the hub returns those of the symbols that it was subscribed to;
  -- it is then subscribed to the others only, and no other session is touched.
  pub unsubscribe_lem :
      (hub : Hub) (cid : ℕ) (symbols : List ℕ) (x : Session)
      → IsIndexed max_symbols hub
      → get hub.sessions cid ≡ some x
      → (hub' : Hub) × (gone : List ℕ) × (unsubscribe hub cid symbols ≡ ok (hub', gone))
        × IsIndexed max_symbols hub'
        × ((s : ℕ) → contains gone s ≡ (contains symbols s && contains x.subscriptions s))
        × ((s c : ℕ)
            → wants (get hub'.sessions c) s
              ≡ (if cid == c && contains symbols s then false else wants (get hub.sessions c) s))
  unfolding unsubscribe
  unsubscribe_lem hub cid symbols x v p =
      let gone = both symbols x.subscriptions in
      let x' : Session = record x { subscriptions = discard_all x.subscriptions gone } in
      let got = λ (c : ℕ). get-put hub.sessions cid c x' in
      let left = λ (s : ℕ). contains-discard_all x.subscriptions gone s in
      let old = λ (s : ℕ). contains-both symbols x.subscriptions s in
      (
        record {
          sessions = put hub.sessions cid x';
          symbol_sessions = unindex_all cid hub.symbol_sessions gone;
        },
        gone,
        ground arith,
        record {
          agree = λ s c. ground (
            arith,
            got c,
            left s,
            old s,
            listed-unindex_all cid hub.symbol_sessions gone s c,
            v.agree s c,
          );
          lean = unindex_all-IsLean cid hub.symbol_sessions gone v.lean;
          limited = λ c y q.
              ground (
                arith,
                got c,
                v.limited c y,
                v.limited c x,
                length-discard_all x.subscriptions gone,
              );
        },
        old,
        λ s c. ground (arith, got c, left s, old s),
      )
