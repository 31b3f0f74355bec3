-- ===== src/Providers/Coinbase/Connection.antt =====
-- providers/coinbase.py: `connect`, `disconnect`, `subscribe` and `unsubscribe`. What `connect` and
-- `send` of the websocket client answer is a parameter.
use smart_market_data_gatewa.Prelude.{
  ℕ, Bool, true, false, ◌&&◌, not, if◌then◌else◌, none, some, List, [], ◌∷◌, ◌++◌,
}
use smart_market_data_gatewa.Prelude.Text.{Text, sorted_texts, has_text, add_text, discard_text}
use smart_market_data_gatewa.Prelude.Outcome.{
  Outcome, Error, ok, raised, value_error, key_error, runtime_error, os_error, arithmetic_error,
  cancelled, ◌>>=◌,
}
use smart_market_data_gatewa.Providers.Coinbase.Json.{string, Python}
use smart_market_data_gatewa.Providers.Coinbase.Values.{symbol_of}
use smart_market_data_gatewa.Providers.Coinbase.Names
use smart_market_data_gatewa.Providers.Coinbase.Projector.{given, after, clear_connection_state}
use smart_market_data_gatewa.Providers.Coinbase.State.{
  disconnected, connecting, connected, degraded, connection_failed, reader_cancelled, reset,
  finalize_reader, Session, Request, sync_diagnostics_state,
}
use smart_market_data_gatewa.Providers.Coinbase.Acknowledged.{
  required_channels, all_in, sync_ack_event,
}
use smart_market_data_gatewa.Providers.Coinbase.Session.{Config, validate_usage}

abbrev pub opening : Session → Session
opening s =
    sync_ack_event
      (record (sync_diagnostics_state
        (record s { diagnostics = reset; state = connecting; message = none })) {
          projector = clear_connection_state s.projector;
          acknowledged_channels = [];
        })

abbrev pub refused : Error → Session → Session
refused e s =
    sync_diagnostics_state (record s { state = degraded; message = some (connection_failed e) })

-- A cancellation is no `Exception`, and leaves the state as it is.
abbrev pub opened : Session → Outcome (Unit {0}) → Session × Outcome (Unit {0})
opened s (ok u) = (
  record (sync_diagnostics_state
      (record s { connection = true; reading = true; state = connected })) {
        heartbeats_subscribed = false;
      },
  ok tt,
)
opened s (raised cancelled) = (s, raised cancelled)
opened s (raised value_error) = (refused value_error s, raised value_error)
opened s (raised key_error) = (refused key_error s, raised key_error)
opened s (raised runtime_error) = (refused runtime_error s, raised runtime_error)
opened s (raised os_error) = (refused os_error s, raised os_error)
opened s (raised arithmetic_error) = (refused arithmetic_error s, raised arithmetic_error)

unfoldable pub connect : Config → Outcome (Unit {0}) → Session → Session × Outcome (Unit {0})
connect config answer s =
    given s (validate_usage config) λ u. if s.reading then (s, ok tt) else opened (opening s) answer

abbrev pub stopped : Session → Session
stopped s =
    if s.reading
    then record s {
      reading = false;
      diagnostics = finalize_reader reader_cancelled none s.diagnostics;
    }
    else s

abbrev pub leaving : Session → Session
leaving s = sync_diagnostics_state (
    sync_ack_event (record s {
      connection = false;
      symbols = [];
      state = disconnected;
      message = none;
      heartbeats_subscribed = false;
      acknowledged_channels = [];
    }))

unfoldable pub disconnect : Session → Session
disconnect s = stopped (leaving s)

-- Those of the texts that the set has, or has not.
unfoldable pub kept : Bool → List Text → List Text → List Text
kept present set [] = []
kept present set (t ∷ ts) =
    let rest = kept present set ts in
    if has_text set t
    then (if present then t ∷ rest else rest)
    else (if present then rest else t ∷ rest)

unfoldable pub add_all : List Text → List Text → List Text
add_all [] set = set
add_all (t ∷ ts) set = add_all ts (add_text t set)

unfoldable pub discard_all : List Text → List Text → List Text
discard_all [] set = set
discard_all (t ∷ ts) set = discard_all ts (discard_text t set)

abbrev pub is_empty : List Text → Bool
is_empty [] = true
is_empty (t ∷ ts) = false

-- How `subscribe` ends: it returns, or it waits for `_all_acknowledged`.
pub data SubscribeProgress : Type 0 where
  returned waiting : SubscribeProgress

abbrev pub send : Request → Outcome (Unit {0}) → Session → Session × Outcome (Unit {0})
send r answer s = given s answer λ u. (record s { requests = s.requests ++ r ∷ [] }, ok tt)

module _ (py : Python) where
  unfoldable pub normalized : List Text → Outcome (List Text)
  normalized [] = ok []
  normalized (t ∷ ts) = do
    symbol ← symbol_of py (string t)
    rest ← normalized ts
    ok (add_text symbol rest)

  abbrev pub send_heartbeats : Outcome (Unit {0}) → Session → Session × Outcome (Unit {0})
  send_heartbeats answer s =
      if s.heartbeats_subscribed
      then (s, ok tt)
      else after
          (send (record { subscribing = true; channel = Names.heartbeats; product_ids = [] }) answer
            s)
          λ t u. (record t { heartbeats_subscribed = true }, ok tt)

  abbrev pub send_both :
      Bool
      → (Text → Session → Session)
      → (ℕ → Outcome (Unit {0}))
      → List Text
      → Session
      → Session × Outcome (Unit {0})
  send_both subscribing then_do answers symbols s =
      after
        (send (record { subscribing = subscribing; channel = Names.ticker; product_ids = symbols })
          (answers 1) s)
        λ t u.
          after
            (send
              (record {
                subscribing = subscribing;
                channel = Names.market_trades;
                product_ids = symbols;
              })
              (answers 2) (then_do Names.ticker t))
            λ v w. (then_do Names.market_trades v, ok tt)

  abbrev pub requested :
      (ℕ → Outcome (Unit {0})) → Bool → List Text → Session → Session × Outcome SubscribeProgress
  requested answers missing new_symbols s =
      if not s.connection
      then (s, raised os_error)
      else after (send_heartbeats (answers 0) (record s { all_acknowledged = false })) λ t u.
        after (send_both true (λ channel v. v) answers new_symbols t)
          λ v w. (v, ok (if missing then waiting else returned))

  unfoldable pub subscribe :
      (ℕ → Outcome (Unit {0})) → List Text → Session → Session × Outcome SubscribeProgress
  subscribe answers symbols s = given s (normalized symbols) λ names.
      let new_symbols = sorted_texts (kept false s.symbols names) in
      let missing = not (all_in required_channels s.acknowledged_channels) in
      let t = record s { symbols = add_all names s.symbols } in
      if is_empty new_symbols && not missing
      then (t, ok returned)
      else requested answers missing new_symbols t

  abbrev pub forget : Text → Session → Session
  forget channel s =
      sync_ack_event
        (record s { acknowledged_channels = discard_text channel s.acknowledged_channels })

  unfoldable pub unsubscribe :
      (ℕ → Outcome (Unit {0})) → List Text → Session → Session × Outcome (Unit {0})
  unsubscribe answers symbols s = given s (normalized symbols) λ names.
      let active = sorted_texts (kept true s.symbols names) in
      let t = record s { symbols = discard_all names s.symbols } in
      if is_empty active
      then (t, ok tt)
      else if not t.connection
      then (t, raised os_error)
      else send_both false forget answers active t
