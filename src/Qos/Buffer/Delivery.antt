-- ===== src/Qos/Buffer/Delivery.antt =====
-- What a pass of `get_due` delivers, and how long it waits otherwise.
use smart_market_data_gatewa.Prelude.{
  ℕ, ◌<◌, ◌≤◌, ◌≡◌, ◌≢◌, ◌∙◌, refl, sym, true, false, Bool, ◌==◌, leb, if◌then◌else◌, is_some, List,
  [], ◌∷◌, Option, none, some, map, arith, All, All-contains, contains, Ascending, Distinct,
  Bool-cases, inl, inr, min, max, sorted_numbers, sorted_numbers-Ascending, contains-sorted_numbers,
}
use smart_market_data_gatewa.Prelude.Dict.{Dict, get, remove, keys, contains-keys}
use smart_market_data_gatewa.Domain.Quote.{QuoteEvent}
use smart_market_data_gatewa.Qos.Buffer.{
  Buffer, Poll, cancelled, wait, wait_for, deliver, Scan, due, next_delay, scan, delay, poll,
  poll_events, popped, answer,
}

module _ (wanted : ℕ → ℕ) where
  -- A scan finds the first symbol that is due, or that none is and the least delay.
  abbrev Scanned : ℕ → List ℕ → Scan → Type 0
  Scanned m ss (due s) =
      (contains ss s ≡ true) × (wanted s ≡ 0) × All (λ t. t < s → 0 < wanted t) ss
  Scanned m ss (next_delay none) = ⊥
  Scanned m ss (next_delay (some d)) =
      (contains (m ∷ map wanted ss) d ≡ true)
      × (d ≤ m)
      × All (λ t. (0 < wanted t) × (d ≤ wanted t)) ss

  above : (s : ℕ) (ss : List ℕ) → All (λ y. s < y) ss → All (λ t. t < s → 0 < wanted t) ss
  above s [] h = tt
  above s (t ∷ ss) h = (λ l. absurd (omega arith), above s ss h.1)

  scan-some : (m : ℕ) (ss : List ℕ) → Ascending ss → Scanned m ss (scan wanted (some m) ss)
  unfolding scan contains
  scan-some m [] a = (ground arith, omega arith, tt)
  scan-some m (s ∷ ss) a = elim (Bool-cases (leb (wanted s) 0)) [
    | inl e ↦ rw e (ground arith, ground arith, (λ l. absurd (omega arith), above s ss a.0))
    | inr n ↦
        rw n
          (more n (scan wanted (some (min m (wanted s))) ss) (scan-some (min m (wanted s)) ss a.1))
  ]
    where
      more :
          leb (wanted s) 0 ≡ false
          → (r : Scan) → Scanned (min m (wanted s)) ss r
          → Scanned m (s ∷ ss) r
      more n (due t) h = (ground arith, h.1, (λ l. ground arith, h.2))
      more n (next_delay none) h = h
      more n (next_delay (some d)) h =
          (ground arith, omega arith, ((ground arith, omega arith), h.2))

  -- The same for the whole list, whose first delay is the least so far.
  abbrev Found : List ℕ → Scan → Type 0
  Found ss (due s) = (contains ss s ≡ true) × (wanted s ≡ 0) × All (λ t. t < s → 0 < wanted t) ss
  Found ss (next_delay none) = ss ≡ []
  Found ss (next_delay (some d)) =
      (contains (map wanted ss) d ≡ true) × All (λ t. (0 < wanted t) × (d ≤ wanted t)) ss

  scan-none : (ss : List ℕ) → Ascending ss → Found ss (scan wanted none ss)
  unfolding scan contains
  scan-none [] a = refl
  scan-none (s ∷ ss) a = elim (Bool-cases (leb (wanted s) 0)) [
    | inl e ↦ rw e (ground arith, ground arith, (λ l. absurd (omega arith), above s ss a.0))
    | inr n ↦ rw n (more n (scan wanted (some (wanted s)) ss) (scan-some (wanted s) ss a.1))
  ]
    where
      more : leb (wanted s) 0 ≡ false → (r : Scan) → Scanned (wanted s) ss r → Found (s ∷ ss) r
      more n (due t) h = (ground arith, h.1, (λ l. ground arith, h.2))
      more n (next_delay none) h = absurd h
      more n (next_delay (some d)) h = (h.0, ((ground arith, h.1), h.2))

-- What a pass may answer: with nothing held it ends if the buffer is closed and else waits; the
-- quote delivered is the one of the first symbol whose time has come; and with no symbol's time
-- come the pass waits for the shortest delay of a held symbol, or a millisecond if that is longer.
pub data Polled (b : Buffer) (interval : ℕ) (last_sent : Dict ℕ) (now : ℕ) : Poll → Type 0 where
  ended : b.events ≡ [] → b.closed ≡ true → Polled b interval last_sent now cancelled
  idle : b.events ≡ [] → b.closed ≡ false → Polled b interval last_sent now wait
  delivered :
      (s : ℕ) (e : QuoteEvent) (b' : Buffer)
      → get b.events s ≡ some e
      → b' ≡ record b { events = remove b.events s }
      → delay last_sent interval now s ≡ 0
      → ((t : ℕ) → is_some (get b.events t) ≡ true → t < s → 0 < delay last_sent interval now t)
      → Polled b interval last_sent now (deliver e b')
  early :
      (s n : ℕ)
      → is_some (get b.events s) ≡ true
      → ((t : ℕ)
          → is_some (get b.events t) ≡ true
          → (0 < delay last_sent interval now t)
            × (delay last_sent interval now s ≤ delay last_sent interval now t))
      → n ≡ max 1000 (delay last_sent interval now s)
      → Polled b interval last_sent now (wait_for n)

-- A symbol of the sorted keys is held, and the other way round.
held : (d : Dict QuoteEvent) (s : ℕ) → contains (sorted_numbers (keys d)) s ≡ is_some (get d s)
held d s = contains-sorted_numbers (keys d) s ∙ contains-keys d s

contains-map :
    (f : ℕ → ℕ) (ss : List ℕ) (d : ℕ)
    → contains (map f ss) d ≡ true
    → (s : ℕ) × (contains ss s ≡ true) × (f s ≡ d)
unfolding contains
contains-map f [] d h = cc
contains-map f (s ∷ ss) d h = elim (Bool-cases (f s == d)) [
  | inl e ↦ (s, ground arith, ground arith)
  | inr n ↦ let (t, p, q) = contains-map f ss d (ground arith) in (t, ground arith, q)
]

keys_none : (d : Dict QuoteEvent) → sorted_numbers (keys d) ≡ [] → d ≡ []
unfolding contains
keys_none [] h = refl
keys_none ((k, e) ∷ d) h = ground (arith, contains-sorted_numbers (keys ((k, e) ∷ d)) k)

module _ (b : Buffer) (interval : ℕ) (last_sent : Dict ℕ) (now : ℕ) where
  delivers :
      (s : ℕ) (o : Option QuoteEvent)
      → get b.events s ≡ o
      → is_some o ≡ true
      → delay last_sent interval now s ≡ 0
      → ((t : ℕ) → is_some (get b.events t) ≡ true → t < s → 0 < delay last_sent interval now t)
      → Polled b interval last_sent now (popped b s o)
  delivers s none g p z f = cc
  delivers s (some e) g p z f = delivered s e _ g refl z f

  answered :
      (r : Scan)
      → b.events ≢ []
      → Found (delay last_sent interval now) (sorted_numbers (keys b.events)) r
      → Polled b interval last_sent now (answer b interval r)
  answered (due s) n (c, z, f) =
      delivers s (get b.events s) refl (sym (held b.events s) ∙ c) z λ t h l.
        All-contains (λ t. t < s → 0 < delay last_sent interval now t) _ t f (held b.events t ∙ h) l
  answered (next_delay none) n h = absurd (n (keys_none b.events h))
  answered (next_delay (some d)) n (c, a) =
      let (s, p, q) =
        contains-map (delay last_sent interval now) (sorted_numbers (keys b.events)) d c in
      early s _ (sym (held b.events s) ∙ p)
        (λ t h.
          let (x, y) =
            All-contains
              (λ t. (0 < delay last_sent interval now t) × (d ≤ delay last_sent interval now t)) _ t
              a (held b.events t ∙ h) in
          (x, omega arith))
        (ground (
          arith,
          All-contains
              (λ t. (0 < delay last_sent interval now t) × (d ≤ delay last_sent interval now t)) _ s
              a p,
        ))

  nothing :
      (c : Bool)
      → b.closed ≡ c
      → b.events ≡ []
      → Polled b interval last_sent now (if c then cancelled else wait)
  nothing true e p = ended p e
  nothing false e p = idle p e

  polled :
      (d : Dict QuoteEvent)
      → b.events ≡ d
      → Distinct (keys b.events)
      → Polled b interval last_sent now (poll_events d b interval last_sent now)
  unfolding poll_events
  polled [] p n = nothing b.closed refl p
  polled (x ∷ d) p n = answered _ (λ e. cc) (scan-none _ _ (sorted_numbers-Ascending _ n))

-- A pass over a buffer with distinct keys answers as described.
pub poll-Polled :
    (b : Buffer) (interval : ℕ) (last_sent : Dict ℕ) (now : ℕ)
    → Distinct (keys b.events)
    → Polled b interval last_sent now (poll b interval last_sent now)
unfolding poll
poll-Polled b interval last_sent now d = polled b interval last_sent now b.events refl d
