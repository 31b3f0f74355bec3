-- ===== src/Providers/Coinbase/Projector/Accepted.antt =====
-- Which batches of trades become an event, and what the event says of them.
use smart_market_data_gatewa.Prelude.{
  ℕ, ◌+◌, ◌≤◌, ◌≡◌, ◌∙◌, sym, refl, ap, Bool, true, false, ◌==◌, ◌&&◌, ltb, not, if◌then◌else◌,
  Option, none, some, List, [], ◌∷◌, length, arith,
}
use smart_market_data_gatewa.Prelude.Text.{Text, text_eq_refl}
use smart_market_data_gatewa.Prelude.TextDict.{find, find-assign}
use smart_market_data_gatewa.Prelude.Outcome.{Outcome, ok, raised, value_error, refuse_if, ◌>>◌}
use smart_market_data_gatewa.Domain.Evidence.{Datetime, require_timezone}
use smart_market_data_gatewa.Domain.Quote.{
  validate_market, check_schema, check_volume, check_flow, check_trade_count, check_depth,
}
use smart_market_data_gatewa.Providers.Coinbase.Json.{Fields, Python}
use smart_market_data_gatewa.Providers.Coinbase.Values.{Amount, all_allowed}
use smart_market_data_gatewa.Providers.Coinbase.Trades.{Tally, no_trades, add_trades}
use smart_market_data_gatewa.Providers.Coinbase.Trades.Sums.{
  AreSided, size_of, bought, sold, sum_of, add_trades-IsSum, add_trades_price,
}
use smart_market_data_gatewa.Providers.Coinbase.Ticker.{TickerState}
use smart_market_data_gatewa.Providers.Coinbase.Event.{
  quote_event, construct, book_depth, not_positive, units_of, has_infinity,
}
use smart_market_data_gatewa.Providers.Coinbase.Projector.{
  Projector, given, next_sequence, priced, build_quote_event,
}

-- The prices of a ticker, where it has them, are positive.
abbrev pub IsPriced : Option TickerState → Type 0
IsPriced none = Unit
IsPriced (some t) =
    (not_positive (units_of t.bid) ≡ false) × (not_positive (units_of t.ask) ≡ false)

-- A book that is not crossed, with both depths or none.
abbrev pub orderly : Option ℕ → Option ℕ → Bool
orderly (some bid) (some ask) = not (ltb ask bid)
orderly (some bid) none = true
orderly none ask = true

abbrev pub two_sided : Option ℕ → Option ℕ → Bool
two_sided (some b) (some a) = true
two_sided (some b) none = false
two_sided none (some a) = false
two_sided none none = true

abbrev pub fits : Text → Bool
fits symbol = not (length symbol == 0) && not (ltb 32 (length symbol)) && all_allowed symbol

abbrev pub returned : {A : Type 0} → Outcome A → Bool
returned (ok a) = true
returned (raised e) = false

abbrev pub bid_of : Option TickerState → Option ℕ
bid_of ticker = units_of (book_depth ticker λ s. s.bid)

abbrev pub ask_of : Option TickerState → Option ℕ
ask_of ticker = units_of (book_depth ticker λ s. s.ask)

abbrev pub bid_depth_of : Option TickerState → Option ℕ
bid_depth_of ticker = units_of (book_depth ticker λ s. s.bid_quantity)

abbrev pub ask_depth_of : Option TickerState → Option ℕ
ask_depth_of ticker = units_of (book_depth ticker λ s. s.ask_quantity)

-- Whether the event of a batch would have an infinite field.
abbrev pub infinite_last : Option TickerState → Tally → Option Amount → Bool
infinite_last ticker t none = false
infinite_last ticker t (some price) = has_infinity ticker t price

abbrev pub infinite_event : Option TickerState → Tally → Bool
infinite_event ticker t = infinite_last ticker t t.latest_price

returned_if :
    {A : Type 0} (c : Bool) (o : Outcome A)
    → returned (refuse_if c value_error >> o) ≡ (not c && returned o)
returned_if true o = refl
returned_if false o = refl

module _ (py : Python) where
  construct_lem :
      (symbol : Text) (bid ask : Option Amount) (bid_quantity ask_quantity : Option Amount)
      (price : Amount) (t : Tally) (tp : Amount) (count n at : ℕ) (d : Datetime)
      → (price.units == 0) ≡ false
      → t.latest_timestamp.aware ≡ true
      → t.aggressive_buy_volume.units + t.aggressive_sell_volume.units ≤ t.total_volume.units
      → not_positive (units_of bid) ≡ false
      → not_positive (units_of ask) ≡ false
      → returned (
          construct symbol (
            quote_event py symbol
              (some (record {
                price = tp;
                bid = bid;
                ask = ask;
                bid_quantity = bid_quantity;
                ask_quantity = ask_quantity;
                provider_timestamp = d;
              }))
              t
              price
              count
              n
              at))
        ≡ (fits symbol
            && orderly (units_of bid) (units_of ask)
            && two_sided (units_of bid_quantity) (units_of ask_quantity))
  unfolding construct quote_event require_timezone validate_market check_schema check_volume
      check_flow check_trade_count check_depth
  construct_lem symbol bid ask bq aq price t tp count n at d hp ha hs hb hk =
      ground (arith, hp, ha, hs, hb, hk)

  construct_bare :
      (symbol : Text) (price : Amount) (t : Tally) (count n at : ℕ)
      → (price.units == 0) ≡ false
      → t.latest_timestamp.aware ≡ true
      → t.aggressive_buy_volume.units + t.aggressive_sell_volume.units ≤ t.total_volume.units
      → returned (construct symbol (quote_event py symbol none t price count n at)) ≡ fits symbol
  unfolding construct quote_event require_timezone validate_market check_schema check_volume
      check_flow check_trade_count check_depth
  construct_bare symbol price t count n at hp ha hs = ground (arith, hp, ha, hs)

  construct-accepts :
      (symbol : Text) (ticker : Option TickerState) (price : Amount) (t : Tally) (count n at : ℕ)
      → IsPriced ticker
      → (price.units == 0) ≡ false
      → t.latest_timestamp.aware ≡ true
      → t.aggressive_buy_volume.units + t.aggressive_sell_volume.units ≤ t.total_volume.units
      → returned (construct symbol (quote_event py symbol ticker t price count n at)) ≡ (
          fits symbol
          && orderly (bid_of ticker) (ask_of ticker)
          && two_sided (bid_depth_of ticker) (ask_depth_of ticker))
  construct-accepts symbol none price t count n at k hp ha hs =
      construct_bare symbol price t count n at hp ha hs ∙ ground arith
  construct-accepts symbol (some s) price t count n at k hp ha hs =
      construct_lem symbol s.bid s.ask s.bid_quantity s.ask_quantity price t s.price count n at
        s.provider_timestamp hp ha hs k.0 k.1

  sums_balanced :
      (trades : List Fields)
      → AreSided py trades
      → sum_of (bought py) trades + sum_of (sold py) trades ≡ sum_of (size_of py) trades
  sums_balanced [] h = refl
  sums_balanced (trade ∷ trades) h = omega (arith, h.0, sums_balanced trades h.1)

  build_priced :
      (symbol : Text) (trades : List Fields) (at : Datetime) (received_at : ℕ) (p : Projector)
      (t : Tally) (price : Amount)
      → add_trades py trades (no_trades at) ≡ ok t
      → t.latest_price ≡ some price
      → build_quote_event py symbol trades at received_at p
        ≡ priced py symbol (length trades) received_at p t (some price)
  unfolding build_quote_event
  build_priced symbol trades at received_at p t price e q =
      ap (λ o. given p o λ x. priced py symbol (length trades) received_at p x x.latest_price) e
      ∙ ap (priced py symbol (length trades) received_at p t) q

  -- Of a batch with a trade that could be summed up, at a time with a zone, under a ticker with
  -- positive prices if it has any: the sequence number of
  -- the symbol goes up by one, and the event is returned exactly if no field is infinite, the symbol fits, the
  -- ticker's book is not crossed, and the ticker has both depths or none.
  pub build_quote_event-accepts :
      (symbol : Text) (trade : Fields) (trades : List Fields) (at : Datetime) (received_at : ℕ)
      (p : Projector) (t : Tally)
      → add_trades py (trade ∷ trades) (no_trades at) ≡ ok t
      → at.aware ≡ true
      → IsPriced (find p.ticker_by_symbol symbol)
      → (find
            (build_quote_event py symbol (trade ∷ trades) at received_at p).0.sequence_by_symbol
            symbol
          ≡ some (next_sequence py p symbol))
        × (returned (build_quote_event py symbol (trade ∷ trades) at received_at p).1 ≡ (
            not (infinite_event (find p.ticker_by_symbol symbol) t)
            && (fits symbol
                && orderly
                    (bid_of (find p.ticker_by_symbol symbol))
                    (ask_of (find p.ticker_by_symbol symbol))
                && two_sided
                    (bid_depth_of (find p.ticker_by_symbol symbol))
                    (ask_depth_of (find p.ticker_by_symbol symbol)))))
  build_quote_event-accepts symbol trade trades at received_at p t e aware k =
      let (sum, sided, zone) = add_trades-IsSum py (trade ∷ trades) (no_trades at) t e in
      let (price, q, n) = add_trades_price py trade trades (no_trades at) t e in
      let same = build_priced symbol (trade ∷ trades) at received_at p t price e q in
      let built = construct symbol (
        quote_event py symbol (find p.ticker_by_symbol symbol) t price (length (trade ∷ trades))
          (next_sequence py p symbol) received_at) in
      (
        ap (λ r. find r.0.sequence_by_symbol symbol) same
            ∙ find-assign p.sequence_by_symbol symbol symbol (next_sequence py p symbol)
            ∙ ap
                (λ b.
                  if b then some (next_sequence py p symbol) else find p.sequence_by_symbol symbol)
                (text_eq_refl symbol),
        ap (λ r. returned r.1) same
            ∙ returned_if (has_infinity (find p.ticker_by_symbol symbol) t price) _
            ∙ ap (λ o. not (infinite_last (find p.ticker_by_symbol symbol) t o) && returned built)
                (sym q)
            ∙ ap (λ b. not (infinite_event (find p.ticker_by_symbol symbol) t) && b)
                (construct-accepts symbol (find p.ticker_by_symbol symbol) price t
                  (length (trade ∷ trades)) (next_sequence py p symbol) received_at k n (zone aware)
                  (omega
                    (arith, sum.total, sum.buys, sum.sells, sums_balanced (trade ∷ trades) sided))),
      )
