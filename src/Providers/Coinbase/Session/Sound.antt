-- ===== src/Providers/Coinbase/Session/Sound.antt =====
-- What holds of a session whatever is read.
use smart_market_data_gatewa.Prelude.{
  ℕ, ◌+◌, ◌≤◌, ◌≡◌, refl, true, List, [], ◌∷◌, arith, Bool-cases, inl, inr,
}
use smart_market_data_gatewa.Prelude.Text.{Text, text_eq, has_text}
use smart_market_data_gatewa.Prelude.TextDict.{TextDict, find, assign}
use smart_market_data_gatewa.Prelude.Outcome.{Outcome, ok, raised}
use smart_market_data_gatewa.Domain.Quote.{QuoteEvent}
use smart_market_data_gatewa.Providers.Coinbase.Json.{
  Json, null, string, scalar, array, object, Fields, empty, field, get, get_or, Python, str, strip,
}
use smart_market_data_gatewa.Providers.Coinbase.Values.{mapping_items}
use smart_market_data_gatewa.Providers.Coinbase.Names
use smart_market_data_gatewa.Providers.Coinbase.Projector.{given, after, apply}
use smart_market_data_gatewa.Providers.Coinbase.State.{
  Session, incremented, record_projected_event, record_subscription_acknowledgement,
}
use smart_market_data_gatewa.Providers.Coinbase.Acknowledged.{
  required_channels, all_in, sync_ack_event, record_acknowledged_channel, record_named, record_keys,
  record_items, record_acknowledged_channels, record_both, record_each, record_events,
  record_subscription_acknowledgements,
}
use smart_market_data_gatewa.Providers.Coinbase.Session.{wanted, deliver, acknowledge, project}

abbrev pub sum_values : TextDict ℕ → ℕ
sum_values [] = 0
sum_values ((k, n) ∷ d) = n + sum_values d

pub sum_values-incremented :
    (d : TextDict ℕ) (k : Text) → sum_values (incremented d k) ≡ sum_values d + 1
unfolding find assign
sum_values-incremented [] k = refl
sum_values-incremented ((j, n) ∷ d) k = ground (arith, sum_values-incremented d k)

-- The event `_all_acknowledged` is set only when every required channel is acknowledged; a reader
-- has a connection; the messages are counted by their channels; and besides the rejected ones there
-- are `slack` more.
pub record IsSound (slack : ℕ) (s : Session) : Type 0 where
  pub acknowledged :
      s.all_acknowledged ≡ true → all_in required_channels s.acknowledged_channels ≡ true
  pub connected : s.reading ≡ true → s.connection ≡ true
  pub counted :
      sum_values s.diagnostics.raw_messages_by_channel ≡ s.diagnostics.raw_messages_received_total
  pub accounted :
      s.diagnostics.rejected_messages_total + slack ≤ s.diagnostics.raw_messages_received_total

module _ (slack : ℕ) where
  abbrev pub Keeps : Session → Type 0
  Keeps s = IsSound slack s

  pub given-IsSound :
      {A B : Type 0} (s : Session) (o : Outcome A) (k : A → Session × Outcome B)
      → Keeps s
      → ((a : A) → Keeps (k a).0)
      → Keeps (given s o k).0
  given-IsSound s (ok a) k h n = n a
  given-IsSound s (raised e) k h n = h

  pub after-IsSound :
      {A B : Type 0} (r : Session × Outcome A) (k : Session → A → Session × Outcome B)
      → Keeps r.0
      → ((s : Session) (a : A) → Keeps s → Keeps (k s a).0)
      → Keeps (after r k).0
  after-IsSound (s, ok a) k h n = n s a h
  after-IsSound (s, raised e) k h n = h

  pub sync_ack_event-IsSound :
      (s : Session)
      → (s.reading ≡ true → s.connection ≡ true)
      → sum_values s.diagnostics.raw_messages_by_channel ≡ s.diagnostics.raw_messages_received_total
      → s.diagnostics.rejected_messages_total + slack ≤ s.diagnostics.raw_messages_received_total
      → Keeps (sync_ack_event s)
  unfolding sync_ack_event
  sync_ack_event-IsSound s a b c = record {
    acknowledged = λ e. e;
    connected = a;
    counted = b;
    accounted = c;
  }

  record_acknowledged_channel-IsSound :
      (name : Text) (s : Session) → Keeps s → Keeps (record_acknowledged_channel name s)
  unfolding record_acknowledged_channel record_subscription_acknowledgement
  record_acknowledged_channel-IsSound name s h =
      elim (Bool-cases (has_text required_channels name)) [
        | inl y ↦ rw y (sync_ack_event-IsSound _ h.connected h.counted h.accounted)
        | inr n ↦ rw n (record {
          acknowledged = h.acknowledged;
          connected = h.connected;
          counted = h.counted;
          accounted = h.accounted;
        })
      ]

  record_named-IsSound : (name : Text) (s : Session) → Keeps s → Keeps (record_named name s)
  record_named-IsSound [] s h = h
  record_named-IsSound (c ∷ name) s h = record_acknowledged_channel-IsSound (c ∷ name) s h

  record_keys-IsSound : (fields : Fields) (s : Session) → Keeps s → Keeps (record_keys fields s)
  unfolding record_keys
  record_keys-IsSound empty s h = h
  record_keys-IsSound (field n v fields) s h =
      record_keys-IsSound fields _ (record_named-IsSound n s h)

  module _ (py : Python) where
    record_items-IsSound :
        (items : List Fields) (s : Session) → Keeps s → Keeps (record_items py items s)
    unfolding record_items
    record_items-IsSound [] s h = h
    record_items-IsSound (item ∷ items) s h =
        record_items-IsSound items _
          (record_named-IsSound (strip (str py (get_or item Names.name (string [])))) s h)

    record_acknowledged_channels-IsSound :
        (v : Json) (s : Session) → Keeps s → Keeps (record_acknowledged_channels py v s).0
    unfolding record_acknowledged_channels
    record_acknowledged_channels-IsSound null s h = h
    record_acknowledged_channels-IsSound (scalar b t) s h = h
    record_acknowledged_channels-IsSound (string t) s h = h
    record_acknowledged_channels-IsSound (object fields) s h = record_keys-IsSound fields s h
    record_acknowledged_channels-IsSound (array items) s h =
        given-IsSound s (mapping_items items) _ h λ fields. record_items-IsSound fields s h

    record_both-IsSound :
        (fields : Fields) (s : Session) → Keeps s → Keeps (record_both py fields s).0
    record_both-IsSound fields s h =
        after-IsSound (record_acknowledged_channels py (get fields Names.subscriptions) s) _
          (record_acknowledged_channels-IsSound (get fields Names.subscriptions) s h)
          λ t u k. record_acknowledged_channels-IsSound (get fields Names.channels) t k

    record_each-IsSound :
        (events : List Fields) (s : Session) → Keeps s → Keeps (record_each py events s).0
    unfolding record_each
    record_each-IsSound [] s h = h
    record_each-IsSound (event ∷ events) s h =
        after-IsSound (record_both py event s) _ (record_both-IsSound event s h)
          λ t u k. record_each-IsSound events t k

    record_events-IsSound : (v : Json) (s : Session) → Keeps s → Keeps (record_events py v s).0
    record_events-IsSound null s h = h
    record_events-IsSound (scalar b t) s h = h
    record_events-IsSound (string t) s h = h
    record_events-IsSound (object fields) s h = h
    record_events-IsSound (array items) s h =
        given-IsSound s (mapping_items items) _ h λ events. record_each-IsSound events s h

    pub acknowledge-IsSound :
        (channel : Text) (payload : Fields) (s : Session)
        → Keeps s
        → Keeps (acknowledge py channel payload s).0
    unfolding record_subscription_acknowledgements
    acknowledge-IsSound channel payload s h =
        elim (Bool-cases (text_eq channel Names.subscriptions)) [
          | inr n ↦ rw n h
          | inl y ↦ rw y (
              after-IsSound (record_both py payload s) _ (record_both-IsSound payload s h)
                λ t u k. record_events-IsSound (get payload Names.events) t k)
        ]

    deliver-IsSound : (es : List QuoteEvent) (s : Session) → Keeps s → Keeps (deliver py es s)
    unfolding deliver record_projected_event
    deliver-IsSound [] s h = h
    deliver-IsSound (e ∷ es) s h = deliver-IsSound es _ (elim (Bool-cases (wanted py s.symbols e)) [
      | inl y ↦ rw y (record {
        acknowledged = h.acknowledged;
        connected = h.connected;
        counted = h.counted;
        accounted = h.accounted;
      })
      | inr n ↦ rw n h
    ])

    pub project-IsSound :
        (payload : Fields) (at : ℕ) (s : Session) → Keeps s → Keeps (project py payload at s).0
    unfolding project
    project-IsSound payload at s h =
        let t : Session = record s { projector = (apply py payload at s.projector).0 } in
        let k : Keeps t = record {
          acknowledged = h.acknowledged;
          connected = h.connected;
          counted = h.counted;
          accounted = h.accounted;
        } in
        given-IsSound t (apply py payload at s.projector).1 _ k λ es. deliver-IsSound es t k
