-- ===== src/Providers/Coinbase/Runs.antt =====
-- Any sequence of calls of the provider, and of answers to its reader.
use smart_market_data_gatewa.Prelude.{
  ℕ, ◌≤◌, ◌≡◌, ◌∙◌, sym, refl, ap, Bool, true, false, ◌&&◌, not, if◌then◌else◌, none, List, [], ◌∷◌,
  arith,
}
use smart_market_data_gatewa.Prelude.Text.{Text, sorted_texts}
use smart_market_data_gatewa.Prelude.Outcome.{
  Outcome, Error, ok, raised, value_error, key_error, runtime_error, os_error, arithmetic_error,
  cancelled,
}
use smart_market_data_gatewa.Providers.Coinbase.Json.{Python}
use smart_market_data_gatewa.Providers.Coinbase.Names
use smart_market_data_gatewa.Providers.Coinbase.State.{
  Session, finalize_reader, Request, reader_cancelled,
}
use smart_market_data_gatewa.Providers.Coinbase.Acknowledged.{
  required_channels, all_in, sync_ack_event,
}
use smart_market_data_gatewa.Providers.Coinbase.Session.{Frame, read, Config, validate_usage}
use smart_market_data_gatewa.Providers.Coinbase.Session.Sound.{
  IsSound, sum_values, given-IsSound, after-IsSound, sync_ack_event-IsSound,
}
use smart_market_data_gatewa.Providers.Coinbase.Session.Reading.{read-IsSound}
use smart_market_data_gatewa.Providers.Coinbase.Connection.{
  connect, disconnect, subscribe, unsubscribe, opened, opening, refused, leaving, stopped, send,
  send_heartbeats, send_both, requested, forget, normalized, kept, add_all, discard_all, is_empty,
  returned,
}

-- What happens to a provider, with what the websocket client answers.
pub data Happening : Type 0 where
  connects : Outcome (Unit {0}) → Happening
  disconnects : Happening
  subscribes unsubscribes : (ℕ → Outcome (Unit {0})) → List Text → Happening
  reads : Frame → ℕ → Happening

-- A change of other fields.
alike :
    (s t : Session)
    → IsSound 0 s
    → t.all_acknowledged ≡ s.all_acknowledged
    → t.acknowledged_channels ≡ s.acknowledged_channels
    → t.reading ≡ s.reading
    → t.connection ≡ s.connection
    → t.diagnostics.raw_messages_by_channel ≡ s.diagnostics.raw_messages_by_channel
    → t.diagnostics.raw_messages_received_total ≡ s.diagnostics.raw_messages_received_total
    → t.diagnostics.rejected_messages_total ≡ s.diagnostics.rejected_messages_total
    → IsSound 0 t
alike s t h a b c d e f g = record {
  acknowledged = ground (arith, h.acknowledged, a, b);
  connected = ground (arith, h.connected, c, d);
  counted = ap sum_values e ∙ h.counted ∙ sym f;
  accounted = ground (arith, h.accounted, f, g);
}

module _ (py : Python) (config : Config) where
  unfoldable pub happen : Happening → Session → Session
  happen (connects answer) s = (connect config answer s).0
  happen disconnects s = disconnect s
  happen (subscribes answers symbols) s = (subscribe py answers symbols s).0
  happen (unsubscribes answers symbols) s = (unsubscribe py answers symbols s).0
  happen (reads f at) s = read py f at s

  unfoldable pub happen_all : List Happening → Session → Session
  happen_all [] s = s
  happen_all (x ∷ xs) s = happen_all xs (happen x s)

refused-IsSound : (e : Error) (s : Session) → IsSound 0 s → IsSound 0 (refused e s)
refused-IsSound e s h = alike s (refused e s) h refl refl refl refl refl refl refl

opened-IsSound : (s : Session) (o : Outcome (Unit {0})) → IsSound 0 s → IsSound 0 (opened s o).0
opened-IsSound s (ok u) h = record {
  acknowledged = h.acknowledged;
  connected = λ x. refl;
  counted = h.counted;
  accounted = h.accounted;
}
opened-IsSound s (raised cancelled) h = h
opened-IsSound s (raised value_error) h = refused-IsSound value_error s h
opened-IsSound s (raised key_error) h = refused-IsSound key_error s h
opened-IsSound s (raised runtime_error) h = refused-IsSound runtime_error s h
opened-IsSound s (raised os_error) h = refused-IsSound os_error s h
opened-IsSound s (raised arithmetic_error) h = refused-IsSound arithmetic_error s h

opening-IsSound : (s : Session) → IsSound 0 s → IsSound 0 (opening s)
opening-IsSound s h = sync_ack_event-IsSound 0 _ h.connected refl (omega arith)

send-IsSound :
    (r : Request) (o : Outcome (Unit {0})) (s : Session) → IsSound 0 s → IsSound 0 (send r o s).0
send-IsSound r o s h = given-IsSound 0 s o _ h λ u. alike s _ h refl refl refl refl refl refl refl

if-IsSound_pair :
    {A : Type 0} (b : Bool) (x y : Session × Outcome A)
    → IsSound 0 x.0
    → IsSound 0 y.0
    → IsSound 0 (if b then x else y).0
if-IsSound_pair true x y h k = h
if-IsSound_pair false x y h k = k

module _ (py : Python) where
  send_heartbeats-IsSound :
      (o : Outcome (Unit {0})) (s : Session) → IsSound 0 s → IsSound 0 (send_heartbeats py o s).0
  send_heartbeats-IsSound o s h =
      if-IsSound_pair s.heartbeats_subscribed (s, ok tt) _ h
        (after-IsSound 0
          (send (record { subscribing = true; channel = Names.heartbeats; product_ids = [] }) o s) _
          (send-IsSound _ o s h) λ t u k. alike t _ k refl refl refl refl refl refl refl)

  send_both-IsSound :
      (subscribing : Bool) (f : Text → Session → Session)
      → ((c : Text) (s : Session) → IsSound 0 s → IsSound 0 (f c s))
      → (answers : ℕ → Outcome (Unit {0})) (symbols : List Text) (s : Session) → IsSound 0 s
      → IsSound 0 (send_both py subscribing f answers symbols s).0
  send_both-IsSound subscribing f keep answers symbols s h =
      after-IsSound 0
        (send (record { subscribing = subscribing; channel = Names.ticker; product_ids = symbols })
          (answers 1) s)
        _ (send-IsSound _ (answers 1) s h)
        λ t u k.
          after-IsSound 0
            (send
              (record {
                subscribing = subscribing;
                channel = Names.market_trades;
                product_ids = symbols;
              })
              (answers 2) (f Names.ticker t))
            _ (send-IsSound _ (answers 2) (f Names.ticker t) (keep Names.ticker t k))
            λ v w j. keep Names.market_trades v j

  requested-IsSound :
      (answers : ℕ → Outcome (Unit {0})) (missing : Bool) (symbols : List Text) (s : Session)
      → IsSound 0 s
      → IsSound 0 (requested py answers missing symbols s).0
  requested-IsSound answers missing symbols s h =
      let cleared : IsSound 0 (record s { all_acknowledged = false }) = record {
        acknowledged = λ x. absurd cc;
        connected = h.connected;
        counted = h.counted;
        accounted = h.accounted;
      } in
      if-IsSound_pair (not s.connection) (s, raised os_error) _ h
        (after-IsSound 0 (send_heartbeats py (answers 0) (record s { all_acknowledged = false })) _
          (send_heartbeats-IsSound (answers 0) _ cleared)
          λ t u k.
            after-IsSound 0 (send_both py true (λ c v. v) answers symbols t) _
              (send_both-IsSound true (λ c v. v) (λ c v j. j) answers symbols t k) λ v w j. j)

  forget-IsSound : (channel : Text) (s : Session) → IsSound 0 s → IsSound 0 (forget py channel s)
  forget-IsSound channel s h = sync_ack_event-IsSound 0 _ h.connected h.counted h.accounted

  subscribe-IsSound :
      (answers : ℕ → Outcome (Unit {0})) (symbols : List Text) (s : Session)
      → IsSound 0 s
      → IsSound 0 (subscribe py answers symbols s).0
  unfolding subscribe
  subscribe-IsSound answers symbols s h = given-IsSound 0 s (normalized py symbols) _ h λ names.
      let t : Session = record s { symbols = add_all names s.symbols } in
      let k : IsSound 0 t = alike s t h refl refl refl refl refl refl refl in
      if-IsSound_pair
        (is_empty (sorted_texts (kept false s.symbols names))
          && not (not (all_in required_channels s.acknowledged_channels)))
        (t, ok returned) _ k (requested-IsSound answers _ _ t k)

  unsubscribe-IsSound :
      (answers : ℕ → Outcome (Unit {0})) (symbols : List Text) (s : Session)
      → IsSound 0 s
      → IsSound 0 (unsubscribe py answers symbols s).0
  unfolding unsubscribe
  unsubscribe-IsSound answers symbols s h = given-IsSound 0 s (normalized py symbols) _ h λ names.
      let t : Session = record s { symbols = discard_all names s.symbols } in
      let k : IsSound 0 t = alike s t h refl refl refl refl refl refl refl in
      if-IsSound_pair (is_empty (sorted_texts (kept true s.symbols names))) (t, ok tt) _ k
        (if-IsSound_pair (not t.connection) (t, raised os_error) _ k
          (send_both-IsSound false (forget py) forget-IsSound answers _ t k))

stopped-IsSound :
    (s : Session)
    → s.all_acknowledged ≡ all_in required_channels s.acknowledged_channels
    → sum_values s.diagnostics.raw_messages_by_channel ≡ s.diagnostics.raw_messages_received_total
    → s.diagnostics.rejected_messages_total ≤ s.diagnostics.raw_messages_received_total
    → IsSound 0 (stopped s)
unfolding finalize_reader
stopped-IsSound s a b c = of_reading s.reading refl
  where
    of_reading :
        (r : Bool)
        → s.reading ≡ r
        → IsSound 0 (
            if r
            then record s {
              reading = false;
              diagnostics = finalize_reader reader_cancelled none s.diagnostics;
            }
            else s)
    of_reading true e = record {
      acknowledged = λ x. sym a ∙ x;
      connected = λ x. absurd cc;
      counted = b;
      accounted = omega (arith, c);
    }
    of_reading false e = record {
      acknowledged = λ x. sym a ∙ x;
      connected = λ x. absurd (cc);
      counted = b;
      accounted = omega (arith, c);
    }

module _ (py : Python) (config : Config) where
  happen-IsSound : (x : Happening) (s : Session) → IsSound 0 s → IsSound 0 (happen py config x s)
  unfolding happen connect disconnect sync_ack_event
  happen-IsSound (connects answer) s h = given-IsSound 0 s (validate_usage config) _ h λ u.
      if-IsSound_pair s.reading (s, ok tt) (opened (opening s) answer) h
        (opened-IsSound (opening s) answer (opening-IsSound s h))
  happen-IsSound disconnects s h =
      let few : s.diagnostics.rejected_messages_total ≤ s.diagnostics.raw_messages_received_total =
        omega (arith, h.accounted) in
      stopped-IsSound (leaving s) refl h.counted few
  happen-IsSound (subscribes answers symbols) s h = subscribe-IsSound py answers symbols s h
  happen-IsSound (unsubscribes answers symbols) s h = unsubscribe-IsSound py answers symbols s h
  happen-IsSound (reads f at) s h = read-IsSound py f at s h

  -- A sound session stays sound over any sequence of calls and of answers of the connection: the
  -- event for which `subscribe` waits is set only when every required channel is acknowledged, a
  -- reader that runs has a connection, the raw messages are counted by their channels, and there
  -- are no more rejected messages than raw ones.
  pub happen_all-IsSound :
      (xs : List Happening) (s : Session) → IsSound 0 s → IsSound 0 (happen_all py config xs s)
  unfolding happen_all
  happen_all-IsSound [] s h = h
  happen_all-IsSound (x ∷ xs) s h =
      happen_all-IsSound xs (happen py config x s) (happen-IsSound x s h)
