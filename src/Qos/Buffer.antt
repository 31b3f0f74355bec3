-- ===== src/Qos/Buffer.antt =====
-- qos.py: `LatestValueBuffer`. Times are numbers of microseconds. Each method runs under the
-- condition's lock, so it is one step; `get_due` is modelled by one pass of its loop, which ends by
-- a delivery, by `CancelledError`, or by a wait for a notification with or without a timeout.
pub mod Bounded
pub mod Delivery
use smart_market_data_gatewa.Prelude.{
  ℕ, ◌+◌, ◌-◌, Bool, true, false, ◌&&◌, not, ltb, leb, if◌then◌else◌, is_some, Option, none, some,
  List, [], ◌∷◌, length, sorted_numbers, min, max,
}
use smart_market_data_gatewa.Prelude.Dict.{Dict, get, put, remove, keys}
use smart_market_data_gatewa.Prelude.Outcome.{Outcome, ok, raised, value_error, ◌>>=◌}
use smart_market_data_gatewa.Domain.Quote.{QuoteEvent}

pub record Buffer : Type 0 where
  pub max_items : ℕ
  pub events : Dict QuoteEvent
  pub closed : Bool
  pub coalesced : ℕ
  pub dropped : ℕ

abbrev pub new : ℕ → Buffer
new max_items = record {
  max_items = max_items;
  events = [];
  closed = false;
  coalesced = 0;
  dropped = 0;
}

-- `min(events, key=received_at)`: the first key with the least arrival time.
oldest_of : ℕ → ℕ → Dict QuoteEvent → ℕ
oldest_of k t [] = k
oldest_of k t ((j, e) ∷ d) =
    oldest_of (if ltb e.received_at t then j else k)
      (if ltb e.received_at t then e.received_at else t) d

unfoldable pub oldest : Dict QuoteEvent → Outcome ℕ
unfolding oldest_of
oldest [] = raised value_error
oldest ((k, e) ∷ d) = ok (oldest_of k e.received_at d)

-- The buffer with room for an event of this symbol, and whether that dropped one.
make_room : Buffer → Bool → Outcome (Buffer × Bool)
make_room b coalesced =
    if not coalesced && leb b.max_items (length b.events)
    then (do
      symbol ← oldest b.events
      ok (record b { events = remove b.events symbol; dropped = b.dropped + 1 }, true))
    else ok (b, false)

abbrev store : Buffer → QuoteEvent → Bool → Buffer
store b event coalesced = record b {
  events = put b.events event.symbol event;
  coalesced = if coalesced then b.coalesced + 1 else b.coalesced;
}

abbrev put_open : Buffer → QuoteEvent → Bool → Outcome (Buffer × Bool × Bool)
put_open b event coalesced = do
  room ← make_room b coalesced
  ok (store room.0 event coalesced, coalesced, room.1)

pub put_event : Buffer → QuoteEvent → Outcome (Buffer × Bool × Bool)
put_event b event =
    if b.closed
    then ok (b, false, false)
    else put_open b event (is_some (get b.events event.symbol))

pub data Poll : Type 0 where
  cancelled missing : Poll
  wait : Poll
  wait_for : ℕ → Poll
  deliver : QuoteEvent → Buffer → Poll

abbrev or_zero : Option ℕ → ℕ
or_zero none = 0
or_zero (some t) = t

-- `max(0.0, last_sent.get(symbol, 0.0) + interval_seconds - now)`
abbrev pub delay : Dict ℕ → ℕ → ℕ → ℕ → ℕ
delay last_sent interval now symbol = or_zero (get last_sent symbol) + interval - now

abbrev sooner : Option ℕ → ℕ → ℕ
sooner none d = d
sooner (some n) d = min n d

-- The inner loop: the first symbol that is due, or the least delay.
pub data Scan : Type 0 where
  due : ℕ → Scan
  next_delay : Option ℕ → Scan

scan : (ℕ → ℕ) → Option ℕ → List ℕ → Scan
scan wanted best [] = next_delay best
scan wanted best (s ∷ ss) =
    let rest = scan wanted (some (sooner best (wanted s))) ss in
    if leb (wanted s) 0 then due s else rest

-- `max(0.001, next_delay or interval_seconds)`
abbrev timeout : ℕ → Option ℕ → ℕ
timeout interval none = max 1000 interval
timeout interval (some d) = max 1000 (if leb d 0 then interval else d)

abbrev popped : Buffer → ℕ → Option QuoteEvent → Poll
popped b symbol none = missing
popped b symbol (some event) = deliver event (record b { events = remove b.events symbol })

abbrev answer : Buffer → ℕ → Scan → Poll
answer b interval (due symbol) = popped b symbol (get b.events symbol)
answer b interval (next_delay d) = wait_for (timeout interval d)

poll_events : Dict QuoteEvent → Buffer → ℕ → Dict ℕ → ℕ → Poll
poll_events [] b interval last_sent now = if b.closed then cancelled else wait
poll_events (_ ∷ _) b interval last_sent now =
    answer b interval (scan (delay last_sent interval now) none (sorted_numbers (keys b.events)))

-- One pass of the loop of `get_due`.
pub poll : Buffer → ℕ → Dict ℕ → ℕ → Poll
poll b = poll_events b.events b

unfoldable pub close : Buffer → Buffer
close b = record b { closed = true; events = [] }
