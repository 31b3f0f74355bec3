-- ===== src/Providers/Coinbase/Trades/Sums.antt =====
-- What the loop over a batch of trades adds up to.
use smart_market_data_gatewa.Prelude.{
  ℕ, length-append, ◌+◌, ◌≡◌, ◌∙◌, sym, refl, ap, subst, true, false, ◌==◌, if◌then◌else◌, Option,
  none, some, List, [], ◌∷◌, length, arith, Bool-cases, inl, inr,
}
use smart_market_data_gatewa.Prelude.Text.{Text, text_eq, text_eq→eq, upper}
use smart_market_data_gatewa.Prelude.Outcome.{Outcome, ok, raised, bound, ok_inj}
use smart_market_data_gatewa.Domain.Evidence.{Datetime}
use smart_market_data_gatewa.Providers.Coinbase.Json.{
  Json, null, string, scalar, array, object, Fields, get, Python, Number, nan, infinite,
  negative_infinite, negative, amount,
}
use smart_market_data_gatewa.Providers.Coinbase.Values.{
  Amount, plus, zoned, positive, timestamp, decimal, positive_decimal, non_negative_decimal,
}
use smart_market_data_gatewa.Providers.Coinbase.Names
use smart_market_data_gatewa.Providers.Coinbase.Trades.{
  Tally, add_side, add_id, add_time, with_timestamp, field_text, add_trade, add_trades,
}

abbrev pub or_zero : Outcome Amount → ℕ
or_zero (ok a) = a.units
or_zero (raised e) = 0

abbrev pub sum_of : (Fields → ℕ) → List Fields → ℕ
sum_of f [] = 0
sum_of f (x ∷ xs) = f x + sum_of f xs

module _ (py : Python) where
  -- The size of a trade, and what it is of the volume that aggressive buyers, or sellers, took.
  abbrev pub size_of : Fields → ℕ
  size_of trade = or_zero (non_negative_decimal py (get trade Names.size))

  abbrev pub side_of : Fields → Text
  side_of trade = upper (field_text py trade Names.side)

  abbrev pub bought : Fields → ℕ
  bought trade = if text_eq (side_of trade) Names.sell then size_of trade else 0

  abbrev pub sold : Fields → ℕ
  sold trade = if text_eq (side_of trade) Names.buy then size_of trade else 0

  -- The sums of `t` are those of `s` and of the trades between.
  pub record IsSum (trades : List Fields) (s t : Tally) : Type 0 where
    pub total : t.total_volume.units ≡ s.total_volume.units + sum_of size_of trades
    pub buys : t.aggressive_buy_volume.units ≡ s.aggressive_buy_volume.units + sum_of bought trades
    pub sells : t.aggressive_sell_volume.units ≡ s.aggressive_sell_volume.units + sum_of sold trades
    pub ids : length t.trade_ids ≡ length s.trade_ids + length trades

  add_side_lem :
      (side : Text) (size : Amount) (s t : Tally)
      → add_side side size s ≡ ok t
      → (t.aggressive_buy_volume.units
          ≡ s.aggressive_buy_volume.units + (if text_eq side Names.sell then size.units else 0))
        × (t.aggressive_sell_volume.units
            ≡ s.aggressive_sell_volume.units + (if text_eq side Names.buy then size.units else 0))
        × (t.total_volume ≡ s.total_volume)
        × (t.trade_ids ≡ s.trade_ids)
        × (t.latest_timestamp ≡ s.latest_timestamp)
        × ((if text_eq side Names.sell then size.units else 0)
              + (if text_eq side Names.buy then size.units else 0)
            ≡ size.units)
  unfolding add_side
  add_side_lem side size s t e = elim (Bool-cases (text_eq side Names.sell)) [
    | inl y ↦
        let other : text_eq side Names.buy ≡ false =
          subst (λ x. text_eq x Names.buy ≡ false) (sym (text_eq→eq side Names.sell y)) refl in
        ground (arith, y, other, e)
    | inr n ↦ elim (Bool-cases (text_eq side Names.buy)) [
      | inl y ↦ ground (arith, y, n, e)
      | inr m ↦ absurd (ground (arith, n, m, e))
    ]
  ]

  add_id_lem :
      (id : Text) (s t : Tally)
      → add_id id s ≡ ok t
      → (t.aggressive_buy_volume ≡ s.aggressive_buy_volume)
        × (t.aggressive_sell_volume ≡ s.aggressive_sell_volume)
        × (t.total_volume ≡ s.total_volume)
        × (length t.trade_ids ≡ length s.trade_ids + 1)
        × (t.latest_timestamp ≡ s.latest_timestamp)
  add_id_lem [] s t e = absurd cc
  add_id_lem (c ∷ id) s t e = ground (arith, e, length-append s.trade_ids ((c ∷ id) ∷ []))

  timed :
      (s t : Tally) (o : Outcome Datetime)
      → with_timestamp py s o ≡ ok t
      → (t.aggressive_buy_volume ≡ s.aggressive_buy_volume)
        × (t.aggressive_sell_volume ≡ s.aggressive_sell_volume)
        × (t.total_volume ≡ s.total_volume)
        × (t.trade_ids ≡ s.trade_ids)
        × (t.latest_price ≡ s.latest_price)
  timed s t (ok d) e = ground (arith, e)
  timed s t (raised x) e = absurd cc

  add_time_lem :
      (time : Json) (s t : Tally)
      → add_time py time s ≡ ok t
      → (t.aggressive_buy_volume ≡ s.aggressive_buy_volume)
        × (t.aggressive_sell_volume ≡ s.aggressive_sell_volume)
        × (t.total_volume ≡ s.total_volume)
        × (t.trade_ids ≡ s.trade_ids)
        × (t.latest_price ≡ s.latest_price)
  add_time_lem null s t e = ground (arith, e)
  add_time_lem (scalar b x) s t e = timed s t (timestamp py (scalar b x)) e
  add_time_lem (string x) s t e = timed s t (timestamp py (string x)) e
  add_time_lem (array x) s t e = timed s t (timestamp py (array x)) e
  add_time_lem (object x) s t e = timed s t (timestamp py (object x)) e

  zoned_aware : (o : Option Datetime) (d : Datetime) → zoned o ≡ ok d → d.aware ≡ true
  zoned_aware none d e = absurd cc
  zoned_aware (some t) d e = elim (Bool-cases t.aware) [
    | inl y ↦ ground (arith, e, y)
    | inr n ↦ absurd (ground (arith, e, n))
  ]

  pub timestamp_aware : (v : Json) (d : Datetime) → timestamp py v ≡ ok d → d.aware ≡ true
  unfolding timestamp
  timestamp_aware null d e = absurd cc
  timestamp_aware (scalar b x) d e = zoned_aware _ d e
  timestamp_aware (string x) d e = zoned_aware _ d e
  timestamp_aware (array x) d e = zoned_aware _ d e
  timestamp_aware (object x) d e = zoned_aware _ d e

  timed_aware :
      (s t : Tally) (v : Json)
      → with_timestamp py s (timestamp py v) ≡ ok t
      → s.latest_timestamp.aware ≡ true
      → t.latest_timestamp.aware ≡ true
  timed_aware s t v e h = of_outcome (timestamp py v) refl e
    where
      of_outcome :
          (o : Outcome Datetime)
          → timestamp py v ≡ o
          → with_timestamp py s o ≡ ok t
          → t.latest_timestamp.aware ≡ true
      of_outcome (ok d) p q = ground (arith, q, h, timestamp_aware v d p)
      of_outcome (raised x) p q = absurd cc

  add_time_aware :
      (time : Json) (s t : Tally)
      → add_time py time s ≡ ok t
      → s.latest_timestamp.aware ≡ true
      → t.latest_timestamp.aware ≡ true
  add_time_aware null s t e h = ground (arith, e, h)
  add_time_aware (scalar b x) s t e h = timed_aware s t (scalar b x) e h
  add_time_aware (string x) s t e h = timed_aware s t (string x) e h
  add_time_aware (array x) s t e h = timed_aware s t (array x) e h
  add_time_aware (object x) s t e h = timed_aware s t (object x) e h

  positive_lem : (m : Number) (n : Amount) → positive m ≡ ok n → (n.units == 0) ≡ false
  positive_lem nan n e = absurd cc
  positive_lem infinite n e = ground (arith, e)
  positive_lem negative_infinite n e = absurd cc
  positive_lem (negative k) n e = absurd cc
  positive_lem (amount k) n e = ground (arith, e)

  pub positive_decimal_lem :
      (v : Json) (n : Amount) → positive_decimal py v ≡ ok n → (n.units == 0) ≡ false
  unfolding positive_decimal
  positive_decimal_lem v n e =
      let (m, a, b) = bound (decimal py v) positive n e in positive_lem m n b

  add_trade_lem :
      (trade : Fields) (s t : Tally)
      → add_trade py trade s ≡ ok t
      → IsSum (trade ∷ []) s t
        × ((p : Amount) × (t.latest_price ≡ some p) × ((p.units == 0) ≡ false))
        × (bought trade + sold trade ≡ size_of trade)
        × (s.latest_timestamp.aware ≡ true → t.latest_timestamp.aware ≡ true)
  unfolding add_trade
  add_trade_lem trade s t e =
      let (size, e1, k1) = bound (non_negative_decimal py (get trade Names.size)) _ t e in
      let (price, e2, k2) = bound (positive_decimal py (get trade Names.price)) _ t k1 in
      let (sided, e3, k3) = bound (add_side (side_of trade) size s) _ t k2 in
      let (named, e4, k4) = bound (add_id (field_text py trade Names.trade_id) sided) _ t k3 in
      let z : size_of trade ≡ size.units = ap or_zero e1 in
      let (a1, a2, a3, a4, a5, a6) = add_side_lem (side_of trade) size s sided e3 in
      let (b1, b2, b3, b4, b5) = add_id_lem (field_text py trade Names.trade_id) sided named e4 in
      let last : Tally = record named {
        total_volume = plus named.total_volume size;
        latest_price = some price;
      } in
      let (d1, d2, d3, d4, d5) = add_time_lem (get trade Names.time) last t k4 in
      (
        record {
          total = ground (arith, d3, b3, a3, z);
          buys = ground (arith, d1, b1, a1, z);
          sells = ground (arith, d2, b2, a2, z);
          ids = ground (arith, d4, b4, a4);
        },
        (price, d5, positive_decimal_lem (get trade Names.price) price e2),
        ground (arith, a6, z),
        λ h. add_time_aware (get trade Names.time) last t k4 (ap (λ x. x.aware) (b5 ∙ a5) ∙ h),
      )

  IsSum-append :
      (trade : Fields) (trades : List Fields) (s m t : Tally)
      → IsSum (trade ∷ []) s m
      → IsSum trades m t
      → IsSum (trade ∷ trades) s t
  IsSum-append trade trades s m t a b = record {
    total = omega (arith, a.total, b.total);
    buys = ground (arith, a.buys, b.buys);
    sells = ground (arith, a.sells, b.sells);
    ids = omega (arith, a.ids, b.ids);
  }

  -- Each trade of the batch is classified.
  abbrev pub AreSided : List Fields → Type 0
  AreSided [] = Unit
  AreSided (trade ∷ trades) = (bought trade + sold trade ≡ size_of trade) × AreSided trades

  pub add_trades-IsSum :
      (trades : List Fields) (s t : Tally)
      → add_trades py trades s ≡ ok t
      → IsSum trades s t
        × AreSided trades
        × (s.latest_timestamp.aware ≡ true → t.latest_timestamp.aware ≡ true)
  unfolding add_trades
  add_trades-IsSum [] s t e =
      let same : s ≡ t = ok_inj e in
      (
        record {
          total = ground (arith, same);
          buys = ground (arith, same);
          sells = ground (arith, same);
          ids = ground (arith, same);
        },
        tt,
        λ h. ap (λ x. x.latest_timestamp.aware) (sym same) ∙ h,
      )
  add_trades-IsSum (trade ∷ trades) s t e =
      let (m, e1, e2) = bound (add_trade py trade s) _ t e in
      let (a, p, c, w) = add_trade_lem trade s m e1 in
      let (b, cs, v) = add_trades-IsSum trades m t e2 in
      (IsSum-append trade trades s m t a b, (c, cs), λ h. v (w h))

  -- The price of a batch that is not empty is that of a trade, which is positive.
  pub add_trades_price :
      (trade : Fields) (trades : List Fields) (s t : Tally)
      → add_trades py (trade ∷ trades) s ≡ ok t
      → (p : Amount) × (t.latest_price ≡ some p) × ((p.units == 0) ≡ false)
  unfolding add_trades
  add_trades_price trade [] s t e =
      let (m, e1, e2) = bound (add_trade py trade s) _ t e in
      let (a, (p, q, n), c, w) = add_trade_lem trade s m e1 in
      (p, ap (λ x. x.latest_price) (sym (ok_inj e2)) ∙ q, n)
  add_trades_price trade (next ∷ trades) s t e =
      let (m, e1, e2) = bound (add_trade py trade s) _ t e in add_trades_price next trades m t e2
