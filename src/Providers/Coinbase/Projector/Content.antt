-- ===== src/Providers/Coinbase/Projector/Content.antt =====
-- What an event that the projector returns says of its batch of trades.
use smart_market_data_gatewa.Prelude.{
  ℕ, ◌≡◌, ◌∙◌, sym, refl, ap, ◌==◌, ◌||◌, ltb, not, if◌then◌else◌, Option, none, some, List, length,
  arith,
}
use smart_market_data_gatewa.Prelude.Text.{Text, text_eq_refl}
use smart_market_data_gatewa.Prelude.TextDict.{find, find-assign}
use smart_market_data_gatewa.Prelude.Outcome.{
  Outcome, ok, raised, value_error, refuse_if, bound, unit_bound, ok_inj,
}
use smart_market_data_gatewa.Domain.Evidence.{Datetime, require_timezone}
use smart_market_data_gatewa.Domain.Quote.{
  QuoteEvent, validate_market, check_schema, check_volume, check_flow, check_trade_count,
  check_depth,
}
use smart_market_data_gatewa.Providers.Coinbase.Json.{Fields, Python}
use smart_market_data_gatewa.Providers.Coinbase.Values.{Amount, all_allowed}
use smart_market_data_gatewa.Providers.Coinbase.Trades.{Tally, no_trades, add_trades}
use smart_market_data_gatewa.Providers.Coinbase.Trades.Sums.{
  AreSided, size_of, bought, sold, sum_of, add_trades-IsSum,
}
use smart_market_data_gatewa.Providers.Coinbase.Event.{
  quote_event, construct, not_positive, has_infinity,
}
use smart_market_data_gatewa.Providers.Coinbase.Projector.{
  Projector, given, next_sequence, priced, build_quote_event,
}

validate_market_same : (q e : QuoteEvent) → validate_market q ≡ ok e → q ≡ e
unfolding validate_market
validate_market_same q e h = ok_inj (
    unit_bound (check_depth q) _ e (
      unit_bound (check_trade_count q) _ e (
        unit_bound (check_flow q) _ e
          (unit_bound (check_volume q) _ e (unit_bound (check_schema q) _ e h)))))

pub construct_same : (symbol : Text) (q e : QuoteEvent) → construct symbol q ≡ ok e → q ≡ e
unfolding construct
construct_same symbol q e h =
    let h1 =
      unit_bound
        (refuse_if (length symbol == 0 || ltb 32 (length symbol) || not (all_allowed symbol))
          value_error)
        _ e h in
    let h2 = unit_bound (refuse_if (q.price == 0) value_error) _ e h1 in
    let h3 = unit_bound (refuse_if (not_positive q.bid) value_error) _ e h2 in
    let h4 = unit_bound (refuse_if (not_positive q.ask) value_error) _ e h3 in
    let (d, x, h5) = bound (require_timezone q.provider_timestamp) _ e h4 in
    validate_market_same q e h5

pub given_returned :
    {S A B : Type 0} (s : S) (o : Outcome A) (k : A → S × Outcome B) (b : B)
    → (given s o k).1 ≡ ok b
    → (a : A) × (o ≡ ok a) × ((k a).1 ≡ ok b) × ((given s o k).0 ≡ (k a).0)
given_returned s (ok a) k b e = (a, refl, e, refl)
given_returned s (raised x) k b e = absurd cc

module _ (py : Python) where
  -- The event speaks of the batch.
  pub record IsOf (symbol : Text) (trades : List Fields) (sequence : ℕ) (e : QuoteEvent)
      : Type 0 where
    pub volume : e.volume ≡ some (sum_of (size_of py) trades)
    pub buy_volume : e.buy_volume ≡ some (sum_of (bought py) trades)
    pub sell_volume : e.sell_volume ≡ some (sum_of (sold py) trades)
    pub sided : AreSided py trades
    pub trade_count : e.trade_count ≡ some (length trades)
    pub numbered : e.sequence ≡ some sequence
    pub named : e.symbol ≡ py.code symbol

  -- An event that `_build_quote_event` returns has the volumes of its trades, and those of them whose
  -- maker sold for the buy volume and of those whose maker bought for the sell volume, each trade
  -- being one of the two; it has their number, and the next sequence number of the symbol.
  pub build_quote_event-IsOf :
      (symbol : Text) (trades : List Fields) (at : Datetime) (received_at : ℕ) (p : Projector)
      (e : QuoteEvent)
      → (build_quote_event py symbol trades at received_at p).1 ≡ ok e
      → IsOf symbol trades (next_sequence py p symbol) e
        × (find (build_quote_event py symbol trades at received_at p).0.sequence_by_symbol symbol
            ≡ some (next_sequence py p symbol))
  unfolding build_quote_event quote_event
  build_quote_event-IsOf symbol trades at received_at p e h =
      let (t, a, b, c) = given_returned p (add_trades py trades (no_trades at)) _ e h in
      of_price t a t.latest_price b c
    where
      of_price :
          (t : Tally)
          → add_trades py trades (no_trades at) ≡ ok t
          → (o : Option Amount) → (priced py symbol (length trades) received_at p t o).1 ≡ ok e
          → (build_quote_event py symbol trades at received_at p).0
            ≡ (priced py symbol (length trades) received_at p t o).0
          → IsOf symbol trades (next_sequence py p symbol) e
            × (find
                  (build_quote_event py symbol trades at received_at p).0.sequence_by_symbol
                  symbol
                ≡ some (next_sequence py p symbol))
      of_price t a none b c = absurd cc
      of_price t a (some price) b c =
          let q =
            construct_same symbol
              (quote_event py symbol (find p.ticker_by_symbol symbol) t price (length trades)
                (next_sequence py p symbol) received_at)
              e
              (unit_bound
                (refuse_if (has_infinity (find p.ticker_by_symbol symbol) t price) value_error) _ e
                b) in
          let (sum, sided, zone) = add_trades-IsSum py trades (no_trades at) t a in
          (
            record {
              volume = ap (λ x. x.volume) (sym q) ∙ ap some (ground (arith, sum.total));
              buy_volume = ap (λ x. x.buy_volume) (sym q) ∙ ap some (ground (arith, sum.buys));
              sell_volume = ap (λ x. x.sell_volume) (sym q) ∙ ap some (ground (arith, sum.sells));
              sided = sided;
              trade_count = ap (λ x. x.trade_count) (sym q);
              numbered = ap (λ x. x.sequence) (sym q);
              named = ap (λ x. x.symbol) (sym q);
            },
            ap (λ r. find r.sequence_by_symbol symbol) c
                ∙ find-assign p.sequence_by_symbol symbol symbol (next_sequence py p symbol)
                ∙ ap
                    (λ b.
                      if b
                      then some (next_sequence py p symbol)
                      else find p.sequence_by_symbol symbol)
                    (text_eq_refl symbol),
          )
