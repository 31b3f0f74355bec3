-- ===== src/Qos/Hub/Routing.antt =====
-- `publish` puts a quote into the buffer of each subscribed session, once, and touches no other.
use smart_market_data_gatewa.Prelude.{
  ℕ, ◌≡◌, ◌∙◌, refl, subst, true, false, Bool, ◌==◌, if◌then◌else◌, Option, none, some, List, [],
  ◌∷◌, arith, contains, Distinct, Bool-cases, inl, inr,
}
use smart_market_data_gatewa.Prelude.Dict.{Dict, get, put, get-put}
use smart_market_data_gatewa.Prelude.Outcome.{Outcome, ok, raised}
use smart_market_data_gatewa.Domain.Quote.{QuoteEvent}
use smart_market_data_gatewa.Qos.Buffer.{Buffer, put_event}
use smart_market_data_gatewa.Qos.Buffer.Bounded.{IsBounded, put_event-accounts, put_event-closed}
use smart_market_data_gatewa.Qos.Hub.{Hub, Session, MaxSymbols, members, offer, offer_all, publish}
use smart_market_data_gatewa.Qos.Hub.Index.{wants}
use smart_market_data_gatewa.Qos.Hub.Agreement.{IsIndexed}

-- Every session's buffer meets its bound.
abbrev BoundedAt : Option Session → Type 0
BoundedAt none = Unit
BoundedAt (some x) = IsBounded x.buffer

abbrev pub AreBounded : Dict Session → Type 0
AreBounded d = (c : ℕ) → BoundedAt (get d c)

put_event-total :
    (b : Buffer) (e : QuoteEvent)
    → IsBounded b
    → (r : Buffer × Bool × Bool) × (put_event b e ≡ ok r) × IsBounded r.0
put_event-total b e v = elim (Bool-cases b.closed) [
  | inl o ↦ ((b, false, false), put_event-closed b e o, v)
  | inr o ↦ let (b', c, d, p, i, g, n) = put_event-accounts b e v o in ((b', c, d), p, i)
]

-- A session with the quote put into its buffer.
abbrev buffer_after : Buffer → Outcome (Buffer × Bool × Bool) → Buffer
buffer_after b (ok r) = r.0
buffer_after b (raised e) = b

abbrev pub served : QuoteEvent → Option Session → Option Session
served e none = none
served e (some x) = some (record x { buffer = buffer_after x.buffer (put_event x.buffer e) })

bounded_if :
    (b : Bool) (y : Session) (o : Option Session)
    → BoundedAt (some y)
    → BoundedAt o
    → BoundedAt (if b then some y else o)
bounded_if true y o i j = i
bounded_if false y o i j = j

offer-served :
    (d : Dict Session) (cid : ℕ) (e : QuoteEvent) (o : Option Session)
    → get d cid ≡ o
    → AreBounded d
    → (d' : Dict Session) × (offer d cid e o ≡ ok d')
      × AreBounded d'
      × ((c : ℕ) → get d' c ≡ (if cid == c then served e (get d c) else get d c))
unfolding offer
offer-served d cid e none p v = (d, refl, v, λ c. ground arith)
offer-served d cid e (some x) p v =
    let (r, q, i) = put_event-total x.buffer e (subst BoundedAt p (v cid)) in
    let x' : Session = record x { buffer = r.0 } in
    (
      put d cid x',
      rw q refl,
      λ c. rw (get-put d cid c x') (bounded_if (cid == c) x' (get d c) i (v c)),
      λ c. ground (arith, get-put d cid c x'),
    )

offer_all-served :
    (d : Dict Session) (e : QuoteEvent) (cids : List ℕ)
    → Distinct cids
    → AreBounded d
    → (d' : Dict Session) × (offer_all d e cids ≡ ok d')
      × AreBounded d'
      × ((c : ℕ) → get d' c ≡ (if contains cids c then served e (get d c) else get d c))
unfolding offer_all contains
offer_all-served d e [] h v = (d, refl, v, λ c. refl)
offer_all-served d e (cid ∷ cids) h v =
    let (d1, p1, v1, f1) = offer-served d cid e (get d cid) refl v in
    let (d2, p2, v2, f2) = offer_all-served d1 e cids h.1 v1 in
    (d2, rw p1 p2, v2, λ c. ground (arith, f1 c, f2 c, h.0))

-- On an indexed hub whose buffers meet their bounds, and that lists each connection once,
-- publishing a quote puts it into the buffer of each session subscribed to its symbol; it changes
-- no other session, and all buffers still meet their bounds.
pub publish_lem :
    (max_symbols : MaxSymbols) (hub : Hub) (e : QuoteEvent)
    → IsIndexed max_symbols hub
    → AreBounded hub.sessions
    → Distinct (members (get hub.symbol_sessions e.symbol))
    → (hub' : Hub) × (publish hub e ≡ ok hub')
      × AreBounded hub'.sessions
      × (hub'.symbol_sessions ≡ hub.symbol_sessions)
      × ((c : ℕ)
          → get hub'.sessions c ≡ (
              if wants (get hub.sessions c) e.symbol
              then served e (get hub.sessions c)
              else get hub.sessions c))
unfolding publish
publish_lem max_symbols hub e v b h =
    let (d, p, b', f) =
      offer_all-served hub.sessions e (members (get hub.symbol_sessions e.symbol)) h b in
    (record hub { sessions = d }, rw p refl, b', refl, λ c. f c ∙ rw (v.agree e.symbol c) refl)
