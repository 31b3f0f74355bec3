-- ===== src/Qos/Buffer/Bounded.antt =====
-- The buffer never holds more than `max_items` quotes, and keeps the newest of each symbol.
use smart_market_data_gatewa.Prelude.{
  ℕ, ◌+◌, ◌<◌, ◌≤◌, ◌≡◌, ◌⊎◌, refl, ◌∙◌, true, false, Bool, not, ◌&&◌, ltb, leb, is_some, [], ◌∷◌,
  some, arith, length, Distinct, Bool-cases, inl, inr,
}
use smart_market_data_gatewa.Prelude.Dict.{
  Dict, get, put, remove, keys, Within, Within-refl, get-put, get-remove, length-put, length-remove,
  keys-put-Distinct, keys-remove-Distinct,
}
use smart_market_data_gatewa.Prelude.Outcome.{ok}
use smart_market_data_gatewa.Domain.Quote.{QuoteEvent}
use smart_market_data_gatewa.Qos.Buffer.{Buffer, oldest_of, oldest, make_room, put_event, put_open}

pub record IsBounded (b : Buffer) : Type 0 where
  pub roomy : 1 ≤ b.max_items
  pub within : length b.events ≤ b.max_items
  pub distinct : Distinct (keys b.events)

-- Nothing in the dict arrived before this event.
abbrev pub Oldest : QuoteEvent → Dict QuoteEvent → Type 0
Oldest e [] = Unit
Oldest e ((k, x) ∷ d) = (e.received_at ≤ x.received_at) × Oldest e d

oldest_of_lem :
    (d : Dict QuoteEvent) (k : ℕ) (e : QuoteEvent) (rest : Dict QuoteEvent)
    → get d k ≡ some e
    → Within d rest
    → (x : QuoteEvent) × (get d (oldest_of k e.received_at rest) ≡ some x)
      × (x.received_at ≤ e.received_at)
      × Oldest x rest
unfolding oldest_of
oldest_of_lem d k e [] p w = (e, p, omega arith, tt)
oldest_of_lem d k e ((j, u) ∷ rest) p w = elim (Bool-cases (ltb u.received_at e.received_at)) [
  | inl sooner ↦
      let (x, q, l, o) = oldest_of_lem d j u rest w.0 w.1 in rw sooner (x, q, ground arith, (l, o))
  | inr later ↦
      let (x, q, l, o) = oldest_of_lem d k e rest p w.1 in rw later (x, q, l, (ground arith, o))
]

pub oldest_lem :
    (d : Dict QuoteEvent)
    → Distinct (keys d)
    → 0 < length d
    → (s : ℕ) × (x : QuoteEvent) × (oldest d ≡ ok s) × (get d s ≡ some x) × Oldest x d
unfolding oldest
oldest_lem [] n h = absurd (omega arith)
oldest_lem ((k, e) ∷ d) n h =
    let w = Within-refl ((k, e) ∷ d) n in
    let (x, q, l, o) = oldest_of_lem ((k, e) ∷ d) k e d w.0 w.1 in
    (oldest_of k e.received_at d, x, refl, q, (l, o))

-- The state without the oldest quote.
abbrev evicted : Buffer → ℕ → Buffer
evicted b s = record b { events = remove b.events s; dropped = b.dropped + 1 }

record Evicts (b : Buffer) (s : ℕ) (x : QuoteEvent) : Type 0 where
  chosen : oldest b.events ≡ ok s
  there : get b.events s ≡ some x
  first : Oldest x b.events

make_room_keep :
    (b : Buffer) (c : Bool)
    → (not c && leb b.max_items (length b.events)) ≡ false
    → make_room b c ≡ ok (b, false)
unfolding make_room
make_room_keep b c h = rw h

make_room_evict :
    (b : Buffer) (c : Bool) (s : ℕ) (x : QuoteEvent)
    → (not c && leb b.max_items (length b.events)) ≡ true
    → Evicts b s x
    → make_room b c ≡ ok (evicted b s, true)
unfolding make_room
make_room_evict b c s x h v = rw (h, v.chosen)

evicts :
    (b : Buffer) → IsBounded b → 0 < length b.events → (s : ℕ) × (x : QuoteEvent) × Evicts b s x
evicts b v h =
    let (s, x, p, q, o) = oldest_lem b.events v.distinct h in
    (s, x, record { chosen = p; there = q; first = o })

-- What an open buffer does with an event: it stores it, and first drops the oldest quote of all if
-- the symbol is new and the buffer full.
pub data Stored (b : Buffer) (e : QuoteEvent) (b' : Buffer) : Bool → Bool → Type 0 where
  replaced :
      is_some (get b.events e.symbol) ≡ true
      → b' ≡ record b { events = put b.events e.symbol e; coalesced = b.coalesced + 1 }
      → Stored b e b' true false
  added :
      is_some (get b.events e.symbol) ≡ false
      → length b.events < b.max_items
      → b' ≡ record b { events = put b.events e.symbol e }
      → Stored b e b' false false
  displaced :
      (s : ℕ) (x : QuoteEvent)
      → is_some (get b.events e.symbol) ≡ false
      → b.max_items ≤ length b.events
      → get b.events s ≡ some x
      → Oldest x b.events
      → b' ≡ record b { events = put (remove b.events s) e.symbol e; dropped = b.dropped + 1 }
      → Stored b e b' false true

put_event-open :
    (b : Buffer) (e : QuoteEvent)
    → b.closed ≡ false
    → put_event b e ≡ put_open b e (is_some (get b.events e.symbol))
unfolding put_event
put_event-open b e o = ground arith

-- On an open buffer that meets its bound, `put` returns, and does one of three things: replace the
-- quote of the same symbol, add a quote within the bound, or drop the oldest quote and add.
pub put_event-Stored :
    (b : Buffer) (e : QuoteEvent)
    → IsBounded b
    → b.closed ≡ false
    → (b' : Buffer) × (coalesced : Bool) × (dropped : Bool) × (put_event b e
        ≡ ok (b', coalesced, dropped))
      × Stored b e b' coalesced dropped
put_event-Stored b e v o =
    let (b', c, d, p, s) =
      stored (Bool-cases (is_some (get b.events e.symbol)))
        (Bool-cases (leb b.max_items (length b.events))) in
    (b', c, d, put_event-open b e o ∙ p, s)
  where
    stored :
        ((is_some (get b.events e.symbol) ≡ true) ⊎ (is_some (get b.events e.symbol) ≡ false))
        → ((leb b.max_items (length b.events) ≡ true) ⊎ (leb b.max_items (length b.events) ≡ false))
        → (b' : Buffer) × (coalesced : Bool) × (dropped : Bool) × (put_open b e
              (is_some (get b.events e.symbol))
            ≡ ok (b', coalesced, dropped))
          × Stored b e b' coalesced dropped
    stored (inl old) full =
        rw old (_, true, false, rw (make_room_keep b true refl) refl, replaced old refl)
    stored (inr new) (inr space) =
        rw new
          (_, false, false, rw (make_room_keep b false space) refl, added new (ground arith) refl)
    stored (inr new) (inl full) =
        let (s, x, w) = evicts b v (grind (arith, v.roomy)) in
        rw new (
          _,
          false,
          true,
          rw (make_room_evict b false s x full w) refl,
          displaced s x new (ground arith) w.there w.first refl,
        )

Stored-IsBounded :
    {b b' : Buffer} {e : QuoteEvent} {c d : Bool} → IsBounded b → Stored b e b' c d → IsBounded b'
Stored-IsBounded {b} {e = e} v (replaced old p) =
    let n = length-put b.events e.symbol e in
    rw p (record {
      roomy = v.roomy;
      within = ground (arith, n, v.within);
      distinct = keys-put-Distinct b.events e.symbol e v.distinct;
    })
Stored-IsBounded {b} {e = e} v (added new space p) =
    let n = length-put b.events e.symbol e in
    rw p (record {
      roomy = v.roomy;
      within = ground (arith, n);
      distinct = keys-put-Distinct b.events e.symbol e v.distinct;
    })
Stored-IsBounded {b} {e = e} v (displaced s x new full there first p) =
    let n = length-put (remove b.events s) e.symbol e in
    let m = length-remove b.events s v.distinct in
    rw p (record {
      roomy = v.roomy;
      within = ground (arith, n, m, v.within, get-remove b.events s e.symbol);
      distinct =
          keys-put-Distinct (remove b.events s) e.symbol e
            (keys-remove-Distinct b.events s v.distinct);
    })

-- Each of the three keeps the bound and accounts for every quote.
pub Stored-accounts :
    {b b' : Buffer} {e : QuoteEvent} {c d : Bool}
    → IsBounded b
    → Stored b e b' c d
    → IsBounded b'
      × (get b'.events e.symbol ≡ some e)
      × (length b'.events + b'.coalesced + b'.dropped
          ≡ length b.events + b.coalesced + b.dropped + 1)
Stored-accounts {b} {e = e} v (replaced old p) = (
  Stored-IsBounded v (replaced old p),
  rw p (ground (arith, get-put b.events e.symbol e.symbol e)),
  rw p (ground (arith, length-put b.events e.symbol e)),
)
Stored-accounts {b} {e = e} v (added new space p) = (
  Stored-IsBounded v (added new space p),
  rw p (ground (arith, get-put b.events e.symbol e.symbol e)),
  rw p (ground (arith, length-put b.events e.symbol e)),
)
Stored-accounts {b} {e = e} v (displaced s x new full there first p) = (
  Stored-IsBounded v (displaced s x new full there first p),
  rw p (ground (arith, get-put (remove b.events s) e.symbol e.symbol e)),
  rw p (
      ground (
        arith,
        length-put (remove b.events s) e.symbol e,
        length-remove b.events s v.distinct,
        get-remove b.events s e.symbol,
      )),
)

-- On an open buffer that meets its bound, `put` returns a buffer that meets it, with the event as
-- the quote of its symbol, and what is held, coalesced and dropped has grown by one.
pub put_event-accounts :
    (b : Buffer) (e : QuoteEvent)
    → IsBounded b
    → b.closed ≡ false
    → (b' : Buffer) × (coalesced : Bool) × (dropped : Bool) × (put_event b e
        ≡ ok (b', coalesced, dropped))
      × IsBounded b'
      × (get b'.events e.symbol ≡ some e)
      × (length b'.events + b'.coalesced + b'.dropped
          ≡ length b.events + b.coalesced + b.dropped + 1)
put_event-accounts b e v o =
    let (b', c, d, p, s) = put_event-Stored b e v o in
    let (i, g, n) = Stored-accounts v s in (b', c, d, p, i, g, n)

-- A closed buffer ignores what it is given.
pub put_event-closed :
    (b : Buffer) (e : QuoteEvent) → b.closed ≡ true → put_event b e ≡ ok (b, false, false)
unfolding put_event
put_event-closed b e o = ground arith
