-- ===== src/Archive/Replay.antt =====
-- What the archive holds after a stream of events, redeliveries included: for each symbol and
-- minute the candle that the hot path builds from the distinct events of that minute.
use smart_market_data_gatewa.Prelude.{
  ℕ, ◌≡◌, refl, true, false, ◌&&◌, ◌==◌, if◌then◌else◌, Option, none, some, List, [], ◌∷◌, arith,
  contains, All, Bool-cases, inl, inr, ◌∙◌,
}
use smart_market_data_gatewa.Prelude.Outcome.{Outcome, ok, ◌>>=◌}
use smart_market_data_gatewa.Domain.Quote.{QuoteEvent}
use smart_market_data_gatewa.Candles.Time.{floor_time, floor_instant}
use smart_market_data_gatewa.Candles.Base.{
  BaseMinuteCandle, from_quote, with_quote, next_candle, updated,
}
use smart_market_data_gatewa.Candles.Arrival.{absorb, absorb_all}
use smart_market_data_gatewa.Archive.Table.{Archive, upsert_event, persist_event, merged-offered}

unfoldable pub persist_all : Archive → List QuoteEvent → Outcome Archive
persist_all a [] = ok a
persist_all a (e ∷ es) = do r ← persist_event a e; persist_all r.0 es

-- The events whose ids are new when they come.
pub accepted : List ℕ → List QuoteEvent → List QuoteEvent
accepted seen [] = []
accepted seen (e ∷ es) =
    let again = accepted seen es in
    let new = e ∷ accepted (e.event_id ∷ seen) es in if contains seen e.event_id then again else new

abbrev pub minute : QuoteEvent → ℕ
minute e = floor_instant e.provider_timestamp.micros 60

-- The events of one symbol and minute.
pub of_minute : ℕ → ℕ → List QuoteEvent → List QuoteEvent
of_minute s b [] = []
of_minute s b (e ∷ es) =
    let rest = of_minute s b es in if e.symbol == s && minute e == b then e ∷ rest else rest

abbrev pub IsAware : QuoteEvent → Type 0
IsAware e = e.provider_timestamp.aware ≡ true

pub record IsKeyed (a : Archive) : Type 0 where
  pub row :
      (s b : ℕ) (c : BaseMinuteCandle) → a.rows s b ≡ some c → (c.symbol ≡ s) × (c.open_time ≡ b)

abbrev after : Archive → QuoteEvent → Archive
after a e = (upsert_event a e (minute e)).0

symbol-updated : (c : BaseMinuteCandle) (e : QuoteEvent) → (updated c e).symbol ≡ c.symbol
unfolding updated
symbol-updated c e = refl

open_time-updated : (c : BaseMinuteCandle) (e : QuoteEvent) → (updated c e).open_time ≡ c.open_time
unfolding updated
open_time-updated c e = refl

with_quote-row :
    (c : BaseMinuteCandle) (e : QuoteEvent)
    → c.symbol ≡ e.symbol
    → c.open_time ≡ minute e
    → IsAware e
    → with_quote c e ≡ ok (updated c e)
unfolding with_quote floor_time
with_quote-row c e p q h = ground arith

-- One row's step is the hot path's next candle.
absorb-row :
    (o : Option BaseMinuteCandle) (a : Archive) (e : QuoteEvent)
    → a.rows e.symbol (minute e) ≡ o
    → IsKeyed a
    → IsAware e
    → contains a.events e.event_id ≡ false
    → absorb (ok o) e ≡ ok ((after a e).rows e.symbol (minute e))
unfolding absorb next_candle from_quote upsert_event
absorb-row none a e row k h new = ground arith
absorb-row (some c) a e row k h new =
    ground (arith, merged-offered c e (minute e), k.row e.symbol (minute e) c, with_quote-row c e)

after_keyed :
    (o : Option BaseMinuteCandle) (a : Archive) (e : QuoteEvent)
    → a.rows e.symbol (minute e) ≡ o
    → IsKeyed a
    → (s b : ℕ) (c : BaseMinuteCandle) → (after a e).rows s b ≡ some c
    → (c.symbol ≡ s) × (c.open_time ≡ b)
unfolding upsert_event
after_keyed none a e row k s b c h = ground (arith, k.row s b c)
after_keyed (some d) a e row k s b c h = ground (
  arith,
  k.row s b c,
  k.row e.symbol (minute e) d,
  merged-offered d e (minute e),
  symbol-updated d e,
  open_time-updated d e,
)

after-IsKeyed : (a : Archive) (e : QuoteEvent) → IsKeyed a → IsKeyed (after a e)
after-IsKeyed a e k = record { row = after_keyed (a.rows e.symbol (minute e)) a e refl k }

absorb_all-fresh :
    (a : Archive) (e : QuoteEvent) (es : List QuoteEvent) (s b : ℕ)
    → IsKeyed a
    → IsAware e
    → contains a.events e.event_id ≡ false
    → absorb_all (ok (a.rows s b)) (of_minute s b (e ∷ es))
      ≡ absorb_all (ok ((after a e).rows s b)) (of_minute s b es)
unfolding of_minute absorb_all upsert_event
absorb_all-fresh a e es s b k h new =
    ground (arith, absorb-row (a.rows e.symbol (minute e)) a e refl k h new)

events-after :
    (a : Archive) (e : QuoteEvent)
    → (after a e).events
      ≡ (if contains a.events e.event_id then a.events else e.event_id ∷ a.events)
unfolding upsert_event
events-after a e = ground arith

rows-after_old :
    (a : Archive) (e : QuoteEvent) → contains a.events e.event_id ≡ true → after a e ≡ a
unfolding upsert_event
rows-after_old a e h = ground arith

-- One event's step, seen from any row.
absorb_all-step :
    (a : Archive) (e : QuoteEvent) (es : List QuoteEvent) (s b : ℕ)
    → IsKeyed a
    → IsAware e
    → absorb_all (ok (a.rows s b)) (of_minute s b (accepted a.events (e ∷ es)))
      ≡ absorb_all (ok ((after a e).rows s b)) (of_minute s b (accepted (after a e).events es))
unfolding accepted
absorb_all-step a e es s b k h = elim (Bool-cases (contains a.events e.event_id)) [
  | inl old ↦ rw (rows-after_old a e old, old)
  | inr new ↦ rw (events-after a e, new) (absorb_all-fresh a e _ s b k h new)
]

persist_event-after :
    (a : Archive) (e : QuoteEvent)
    → IsAware e
    → persist_event a e ≡ ok (upsert_event a e (minute e))
unfolding persist_event floor_time
persist_event-after a e h = ground arith

-- Any archive whose rows stand under their keys takes in any stream of events with time zones, and
-- then the row of each symbol and minute is what folding the row before over the new distinct
-- events of that symbol and minute gives.
pub persist_all-rows :
    (a : Archive) (es : List QuoteEvent)
    → IsKeyed a
    → All IsAware es
    → (a' : Archive) × (persist_all a es ≡ ok a')
      × ((s b : ℕ)
          → absorb_all (ok (a.rows s b)) (of_minute s b (accepted a.events es)) ≡ ok (a'.rows s b))
unfolding persist_all accepted of_minute absorb_all
persist_all-rows a [] k h = (a, refl, λ s b. refl)
persist_all-rows a (e ∷ es) k h =
    let (a', done, rows) = persist_all-rows (after a e) es (after-IsKeyed a e k) h.1 in
    (a', rw (persist_event-after a e h.0) done, λ s b. absorb_all-step a e es s b k h.0 ∙ rows s b)

abbrev AllKnown : Archive → List QuoteEvent → Type 0
AllKnown a es = All (λ e. contains a.events e.event_id ≡ true) es

after-known :
    (a : Archive) (e : QuoteEvent) (i : ℕ)
    → contains a.events i ≡ true
    → contains (after a e).events i ≡ true
unfolding upsert_event contains
after-known a e i h = ground arith

persist_all-keeps :
    (a : Archive) (es : List QuoteEvent) (a' : Archive) (i : ℕ)
    → All IsAware es
    → contains a.events i ≡ true
    → persist_all a es ≡ ok a'
    → contains a'.events i ≡ true
unfolding persist_all
persist_all-keeps a [] a' i h k p = ground arith
persist_all-keeps a (e ∷ es) a' i h k p =
    persist_all-keeps (after a e) es a' i h.1 (after-known a e i k)
      (ground (arith, persist_event-after a e h.0))

after_self : (a : Archive) (e : QuoteEvent) → contains (after a e).events e.event_id ≡ true
unfolding upsert_event contains
after_self a e = ground arith

persist_all-AllKnown :
    (a : Archive) (es : List QuoteEvent) (a' : Archive)
    → All IsAware es
    → persist_all a es ≡ ok a'
    → AllKnown a' es
unfolding persist_all
persist_all-AllKnown a [] a' h p = tt
persist_all-AllKnown a (e ∷ es) a' h p =
    let rest : persist_all (after a e) es ≡ ok a' = ground (arith, persist_event-after a e h.0) in
    (
      persist_all-keeps (after a e) es a' e.event_id h.1 (after_self a e) rest,
      persist_all-AllKnown (after a e) es a' h.1 rest,
    )

persist_all-known :
    (a : Archive) (es : List QuoteEvent) → All IsAware es → AllKnown a es → persist_all a es ≡ ok a
unfolding persist_all
persist_all-known a [] h k = refl
persist_all-known a (e ∷ es) h k =
    rw (persist_event-after a e h.0, rows-after_old a e k.0) (persist_all-known a es h.1 k.1)

-- A batch of events with time zones that is delivered again changes nothing in the archive.
pub persist_all-again :
    (a : Archive) (es : List QuoteEvent) (a' : Archive)
    → All IsAware es
    → persist_all a es ≡ ok a'
    → persist_all a' es ≡ ok a'
persist_all-again a es a' h p = persist_all-known a' es h (persist_all-AllKnown a es a' h p)
