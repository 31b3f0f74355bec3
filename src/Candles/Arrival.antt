-- ===== src/Candles/Arrival.antt =====
-- The order in which the quotes of a minute arrive does not matter to its candle.
use mathlib.Core.List.{foldl, Nodup, Nodup-cons, Permᴰ, Perm, mem-cons_self}
use mathlib.Core.List.Perm
use mathlib.Core.Logic.{∥∥₁_elim}
use smart_market_data_gatewa.Prelude.{
  ℕ, ◌+◌, min, max, ◌≡◌, ◌≢◌, refl, ap, ◌∙◌, Option, none, some, List, ◌∷◌, map, arith,
  if◌then◌else◌,
}
use smart_market_data_gatewa.Prelude.Outcome.{Outcome, ok, raised, ◌>>=◌}
use smart_market_data_gatewa.Domain.Quote.{QuoteEvent}
use smart_market_data_gatewa.Candles.Time.{floor_time}
use smart_market_data_gatewa.Candles.Base.{
  BaseMinuteCandle, from_quote, with_quote, next_candle, updated, key_lt, key_lt_flip, key_lt_trans,
}

-- Of three keys with a value each, the least is picked in either order of the last two.
module _ (ta ia tb ib tc ic xa xb xc : ℕ) (h : ia ≢ ib) where
  earliest_comm :
      (let e = key_lt ta ia tc ic in
        if key_lt tb ib (if e then ta else tc) (if e then ia else ic)
        then xb
        else if e
        then xa
        else xc)
      ≡ (let e = key_lt tb ib tc ic in
          if key_lt ta ia (if e then tb else tc) (if e then ib else ic)
          then xa
          else if e
          then xb
          else xc)
  earliest_comm = ground (
    arith,
    key_lt_flip ta ia tb ib h,
    key_lt_trans ta ia tb ib tc ic,
    key_lt_trans tb ib ta ia tc ic,
  )

  latest_comm :
      (let e = key_lt tc ic ta ia in
        if key_lt (if e then ta else tc) (if e then ia else ic) tb ib
        then xb
        else if e
        then xa
        else xc)
      ≡ (let e = key_lt tc ic tb ib in
          if key_lt (if e then tb else tc) (if e then ib else ic) ta ia
          then xa
          else if e
          then xb
          else xc)
  latest_comm = ground (
    arith,
    key_lt_flip ta ia tb ib h,
    key_lt_trans tc ic ta ia tb ib,
    key_lt_trans tc ic tb ib ta ia,
  )

max_comm : (a b c : ℕ) → max (max c a) b ≡ max (max c b) a
max_comm a b c = omega arith

min_comm : (a b c : ℕ) → min (min c a) b ≡ min (min c b) a
min_comm a b c = omega arith

updated_comm :
    (c : BaseMinuteCandle) (a b : QuoteEvent)
    → a.event_id ≢ b.event_id
    → updated (updated c a) b ≡ updated (updated c b) a
unfolding updated
updated_comm c a b h =
    let first = λ (x y z : ℕ).
      earliest_comm a.provider_timestamp.micros a.event_id b.provider_timestamp.micros b.event_id
        c.first_provider_timestamp c.first_event_id x y z h in
    let last = λ (x y z : ℕ).
      latest_comm a.provider_timestamp.micros a.event_id b.provider_timestamp.micros b.event_id
        c.last_provider_timestamp c.last_event_id x y z h in
    λ i. record {
      symbol = c.symbol;
      open_time = c.open_time;
      open_price = first a.price b.price c.open_price i;
      high = max_comm a.price b.price c.high i;
      low = min_comm a.price b.price c.low i;
      close_price = last a.price b.price c.close_price i;
      activity_count = c.activity_count + 1 + 1;
      first_provider_timestamp =
          first a.provider_timestamp.micros b.provider_timestamp.micros c.first_provider_timestamp
            i;
      last_provider_timestamp =
          last a.provider_timestamp.micros b.provider_timestamp.micros c.last_provider_timestamp i;
      first_event_id = first a.event_id b.event_id c.first_event_id i;
      last_event_id = last a.event_id b.event_id c.last_event_id i;
    }

symbol-updated : (c : BaseMinuteCandle) (e : QuoteEvent) → (updated c e).symbol ≡ c.symbol
unfolding updated
symbol-updated c e = refl

open_time-updated : (c : BaseMinuteCandle) (e : QuoteEvent) → (updated c e).open_time ≡ c.open_time
unfolding updated
open_time-updated c e = refl

with_quote_comm :
    (c : BaseMinuteCandle) (a b : QuoteEvent)
    → a.event_id ≢ b.event_id
    → (with_quote c a >>= λ d. with_quote d b) ≡ (with_quote c b >>= λ d. with_quote d a)
unfolding with_quote floor_time
with_quote_comm c a b h = ground (
  arith,
  updated_comm c a b h,
  symbol-updated c a,
  symbol-updated c b,
  open_time-updated c a,
  open_time-updated c b,
)

from_quote_comm :
    (a b : QuoteEvent)
    → a.event_id ≢ b.event_id
    → (from_quote a >>= λ c. with_quote c b) ≡ (from_quote b >>= λ c. with_quote c a)
unfolding from_quote with_quote updated floor_time
from_quote_comm a b h = ground (
  arith,
  key_lt_flip a.provider_timestamp.micros a.event_id b.provider_timestamp.micros b.event_id h,
)

-- The candle after some more quotes: the first makes it, the others extend it.
unfoldable pub absorb :
    Outcome (Option BaseMinuteCandle) → QuoteEvent → Outcome (Option BaseMinuteCandle)
absorb state event = do candle ← state; next ← next_candle candle event; ok (some next)

unfoldable pub absorb_all :
    Outcome (Option BaseMinuteCandle) → List QuoteEvent → Outcome (Option BaseMinuteCandle)
absorb_all = foldl absorb

absorb_comm :
    (s : Outcome (Option BaseMinuteCandle)) (a b : QuoteEvent)
    → a.event_id ≢ b.event_id
    → absorb (absorb s a) b ≡ absorb (absorb s b) a
unfolding absorb next_candle
absorb_comm (raised e) a b h = refl
absorb_comm (ok none) a b h = ground (arith, from_quote_comm a b h)
absorb_comm (ok (some c)) a b h = ground (arith, with_quote_comm c a b h)

abbrev pub event_ids : List QuoteEvent → List ℕ
event_ids = map λ e. e.event_id

heads_differ :
    (a b : QuoteEvent) (es : List QuoteEvent)
    → Nodup (event_ids (a ∷ b ∷ es))
    → a.event_id ≢ b.event_id
heads_differ a b es d e = (Nodup-cons.0 d).0 (rw e mem-cons_self)

absorb_all-Permᴰ :
    (s : Outcome (Option BaseMinuteCandle)) {xs ys : List QuoteEvent}
    → Permᴰ xs ys
    → Nodup (event_ids xs)
    → absorb_all s xs ≡ absorb_all s ys
unfolding absorb_all
absorb_all-Permᴰ s Permᴰ.nil d = refl
absorb_all-Permᴰ s (Permᴰ.cons {a = x} {l₁ = xs} e p) d =
    rw (← e) (absorb_all-Permᴰ (absorb s x) p (Nodup-cons.0 d).1)
absorb_all-Permᴰ s (Permᴰ.swap {a = x} {b = y} {l = zs} e f) d =
    rw (← e, ← f) (ap (λ t. foldl absorb t zs) (absorb_comm s x y (heads_differ x y zs d)))
absorb_all-Permᴰ s (Permᴰ.trans p q) d =
    absorb_all-Permᴰ s p d ∙ absorb_all-Permᴰ s q (Perm.nodup (Perm.map _ ∣ p ∣₁) d)

Candle-set : IsSet (Outcome (Option BaseMinuteCandle))
Candle-set = hlevel

-- Quotes with distinct event ids give the same candle, or the same error, in whatever order they
-- arrive.
pub absorb_all-perm :
    (s : Outcome (Option BaseMinuteCandle)) (xs ys : List QuoteEvent)
    → Perm xs ys
    → Nodup (event_ids xs)
    → absorb_all s xs ≡ absorb_all s ys
absorb_all-perm s xs ys p d = ∥∥₁_elim p (Candle-set _ _) (λ q. absorb_all-Permᴰ s q d)
