-- ===== src/Qos/Tests.antt =====
-- A buffer of two quotes, and a hub with one session.
use smart_market_data_gatewa.Prelude.{
  ℕ, ◌+◌, ◌≡◌, refl, Bool, false, ◌&&◌, ◌||◌, not, ◌==◌, if◌then◌else◌, some, List, [], ◌∷◌, arith,
  length, contains, insert,
}
use smart_market_data_gatewa.Prelude.Dict.{get}
use smart_market_data_gatewa.Prelude.Outcome.{ok}
use smart_market_data_gatewa.Domain.Evidence.{basic}
use smart_market_data_gatewa.Domain.Quote.{QuoteEvent, sample}
use smart_market_data_gatewa.Qos.Buffer.{Buffer, new, put_event, poll}
use smart_market_data_gatewa.Qos.Buffer.Bounded.{
  IsBounded, Stored, put_event-Stored, put_event-accounts,
}
use smart_market_data_gatewa.Qos.Buffer.Delivery.{Polled, poll-Polled}
use smart_market_data_gatewa.Qos.Hub.{
  Hub, Session, MaxSymbols, remove_session, subscribe, unsubscribe, publish, union,
}
use smart_market_data_gatewa.Qos.Hub.Index.{wants}
use smart_market_data_gatewa.Qos.Hub.Agreement.{
  IsIndexed, remove_session-IsIndexed, subscribe_lem, unsubscribe_lem,
}
use smart_market_data_gatewa.Qos.Hub.Routing.{AreBounded, served, publish_lem}

abbrev other : QuoteEvent
other = record sample { event_id = 9; symbol = 4; received_at = 124000000 }

abbrev third : QuoteEvent
third = record sample { event_id = 10; symbol = 5; received_at = 126000000 }

-- A full buffer.
abbrev full : Buffer
full = record (new 2) { events = (3, sample) ∷ (4, other) ∷ [] }

full-IsBounded : IsBounded full
unfolding contains
full-IsBounded = record { roomy = omega arith; within = omega arith; distinct = (refl, (refl, tt)) }

stored_example :
    (b' : Buffer) × (coalesced : Bool) × (dropped : Bool) × (put_event full third
      ≡ ok (b', coalesced, dropped))
    × Stored full third b' coalesced dropped
stored_example = put_event-Stored full third full-IsBounded refl

accounts_example :
    (b' : Buffer) × (coalesced : Bool) × (dropped : Bool) × (put_event full third
      ≡ ok (b', coalesced, dropped))
    × IsBounded b'
    × (get b'.events 5 ≡ some third)
    × (length b'.events + b'.coalesced + b'.dropped
        ≡ length full.events + full.coalesced + full.dropped + 1)
accounts_example = put_event-accounts full third full-IsBounded refl

polled_example : Polled full 1000 [] 5000 (poll full 1000 [] 5000)
polled_example = poll-Polled full 1000 [] 5000 full-IsBounded.distinct

abbrev ten : MaxSymbols
ten tier = 10

abbrev idle : Session
idle = record { connection_id = 1; tier = basic; buffer = new 2; subscriptions = [] }

abbrev no_hub : Hub
no_hub = record { sessions = []; symbol_sessions = [] }

no_hub-IsIndexed : IsIndexed ten no_hub
unfolding get contains
no_hub-IsIndexed = record { agree = λ s c. refl; lean = λ s h. cc; limited = λ c x h. absurd cc }

-- One connection that is subscribed to two symbols.
abbrev busy : Session
busy = record idle { buffer = full; subscriptions = 3 ∷ 4 ∷ [] }

abbrev one_hub : Hub
one_hub = record { sessions = (1, busy) ∷ []; symbol_sessions = (3, 1 ∷ []) ∷ (4, 1 ∷ []) ∷ [] }

one_hub-IsIndexed : IsIndexed ten one_hub
unfolding get contains
one_hub-IsIndexed = record {
  agree = λ s c. ground arith;
  lean = λ s h. ground arith;
  limited = λ c x h. ground arith;
}

one_hub-AreBounded : AreBounded one_hub.sessions
unfolding get
one_hub-AreBounded = λ c. ground (arith, full-IsBounded)

remove_example : IsIndexed ten (remove_session one_hub 1).0
remove_example = remove_session-IsIndexed ten one_hub 1 one_hub-IsIndexed

subscribe_example :
    (hub' : Hub) × (added : List ℕ) × (subscribe ten one_hub 1 (4 ∷ 5 ∷ []) ≡ ok (hub', added))
    × IsIndexed ten hub'
    × ((s : ℕ)
        → contains added s ≡ (contains (4 ∷ 5 ∷ []) s && not (contains busy.subscriptions s)))
    × ((s c : ℕ)
        → wants (get hub'.sessions c) s
          ≡ ((1 == c && contains (4 ∷ 5 ∷ []) s) || wants (get one_hub.sessions c) s))
unfolding get union insert contains
subscribe_example =
    subscribe_lem ten one_hub 1 (4 ∷ 5 ∷ []) busy one_hub-IsIndexed refl (omega arith)

unsubscribe_example :
    (hub' : Hub) × (gone : List ℕ) × (unsubscribe one_hub 1 (4 ∷ 5 ∷ []) ≡ ok (hub', gone))
    × IsIndexed ten hub'
    × ((s : ℕ) → contains gone s ≡ (contains (4 ∷ 5 ∷ []) s && contains busy.subscriptions s))
    × ((s c : ℕ)
        → wants (get hub'.sessions c) s
          ≡ (if 1 == c && contains (4 ∷ 5 ∷ []) s then false else wants (get one_hub.sessions c) s))
unfolding get
unsubscribe_example = unsubscribe_lem ten one_hub 1 (4 ∷ 5 ∷ []) busy one_hub-IsIndexed refl

publish_example :
    (hub' : Hub) × (publish one_hub sample ≡ ok hub')
    × AreBounded hub'.sessions
    × (hub'.symbol_sessions ≡ one_hub.symbol_sessions)
    × ((c : ℕ)
        → get hub'.sessions c ≡ (
            if wants (get one_hub.sessions c) 3
            then served sample (get one_hub.sessions c)
            else get one_hub.sessions c))
unfolding get contains
publish_example = publish_lem ten one_hub sample one_hub-IsIndexed one_hub-AreBounded (refl, tt)
