-- ===== src/Providers/Coinbase/Projector/Priced.antt =====
-- The tickers that the projector keeps have positive prices, whatever messages came.
use smart_market_data_gatewa.Prelude.{
  ℕ, ◌≡◌, ◌∙◌, sym, refl, subst, Bool, true, false, ◌&&◌, ◌||◌, not, arith, ◌==◌, if◌then◌else◌,
  Option, none, some, List, [], ◌∷◌, ◌++◌, length, Bool-cases, inl, inr,
}
use smart_market_data_gatewa.Prelude.Text.{Text, text_eq}
use smart_market_data_gatewa.Prelude.TextDict.{TextDict, find, find-assign, sorted_items}
use smart_market_data_gatewa.Prelude.Outcome.{Outcome, ok, raised, bound, ok_inj}
use smart_market_data_gatewa.Domain.Evidence.{Datetime}
use smart_market_data_gatewa.Domain.Quote.{QuoteEvent}
use smart_market_data_gatewa.Providers.Coinbase.Json.{
  Json, null, scalar, string, array, object, Fields, Python, get,
}
use smart_market_data_gatewa.Providers.Coinbase.Names
use smart_market_data_gatewa.Providers.Coinbase.Values.{
  Amount, mapping_sequence, timestamp, symbol_of, present, positive_decimal,
  optional_positive_decimal, optional_non_negative_decimal,
}
use smart_market_data_gatewa.Providers.Coinbase.Trades.{Tally, no_trades, add_trades}
use smart_market_data_gatewa.Providers.Coinbase.Trades.Sums.{positive_decimal_lem}
use smart_market_data_gatewa.Providers.Coinbase.Ticker.{TickerState, ticker_state, named_ticker}
use smart_market_data_gatewa.Providers.Coinbase.Event.{not_positive, units_of}
use smart_market_data_gatewa.Providers.Coinbase.Projector.{
  Projector, given, after, next_sequence, priced, build_quote_event, project_groups, project_trades,
  apply_tickers, apply_ticker_events, apply_ticker, apply, group_events, clear_connection_state,
  no_events, channel_of, put_ticker,
}
use smart_market_data_gatewa.Providers.Coinbase.Projector.Accepted.{
  IsPriced, orderly, two_sided, fits, infinite_event, returned, bid_of, ask_of, bid_depth_of,
  ask_depth_of, build_quote_event-accepts,
}
use smart_market_data_gatewa.Providers.Coinbase.Projector.Rising.{Use, message, reconnect, used}

module _ (py : Python) where
  present_lem :
      (o : Outcome Amount) (p : Option Amount)
      → ((n : Amount) → o ≡ ok n → (n.units == 0) ≡ false)
      → present o ≡ ok p
      → not_positive (units_of p) ≡ false
  present_lem (ok n) p h e = subst (λ q. not_positive (units_of q) ≡ false) (ok_inj e) (h n refl)
  present_lem (raised x) p h e = absurd cc

  optional_positive_lem :
      (v : Json) (p : Option Amount)
      → optional_positive_decimal py v ≡ ok p
      → not_positive (units_of p) ≡ false
  optional_positive_lem null p e = subst (λ q. not_positive (units_of q) ≡ false) (ok_inj e) refl
  optional_positive_lem (string []) p e =
      subst (λ q. not_positive (units_of q) ≡ false) (ok_inj e) refl
  optional_positive_lem (string (c ∷ t)) p e =
      present_lem (positive_decimal py (string (c ∷ t))) p
        (positive_decimal_lem py (string (c ∷ t))) e
  optional_positive_lem (scalar b t) p e =
      present_lem (positive_decimal py (scalar b t)) p (positive_decimal_lem py (scalar b t)) e
  optional_positive_lem (array x) p e =
      present_lem (positive_decimal py (array x)) p (positive_decimal_lem py (array x)) e
  optional_positive_lem (object x) p e =
      present_lem (positive_decimal py (object x)) p (positive_decimal_lem py (object x)) e

  ticker_state-IsPriced :
      (at : Datetime) (ticker : Fields) (t : TickerState)
      → ticker_state py at ticker ≡ ok t
      → IsPriced (some t)
  unfolding ticker_state
  ticker_state-IsPriced at ticker t e =
      let (price, e1, k1) = bound (positive_decimal py (get ticker Names.price)) _ t e in
      let (bid, e2, k2) = bound (optional_positive_decimal py (get ticker Names.best_bid)) _ t k1 in
      let (ask, e3, k3) = bound (optional_positive_decimal py (get ticker Names.best_ask)) _ t k2 in
      let (bq, e4, k4) =
        bound (optional_non_negative_decimal py (get ticker Names.best_bid_quantity)) _ t k3 in
      let (aq, e5, k5) =
        bound (optional_non_negative_decimal py (get ticker Names.best_ask_quantity)) _ t k4 in
      subst (λ x. IsPriced (some x)) (ok_inj k5)
        (
          optional_positive_lem (get ticker Names.best_bid) bid e2,
          optional_positive_lem (get ticker Names.best_ask) ask e3,
        )

  named-IsPriced :
      (at : Datetime) (ticker : Fields) (t : Text × TickerState)
      → named_ticker py at ticker ≡ ok t
      → IsPriced (some t.1)
  named-IsPriced at ticker t e =
      let (symbol, e1, k1) = bound (symbol_of py (get ticker Names.product_id)) _ t e in
      let (state, e2, k2) = bound (ticker_state py at ticker) _ t k1 in
      subst (λ x. IsPriced (some x.1)) (ok_inj k2) (ticker_state-IsPriced at ticker state e2)

  unfoldable ArePriced : Projector → Type 0
  ArePriced p = (symbol : Text) → IsPriced (find p.ticker_by_symbol symbol)

  put_ticker-ArePriced :
      (p : Projector) (symbol : Text) (t : TickerState)
      → IsPriced (some t)
      → ArePriced p
      → ArePriced (put_ticker py p symbol t)
  unfolding ArePriced
  put_ticker-ArePriced p symbol t k h j =
      subst IsPriced (sym (find-assign p.ticker_by_symbol symbol j t)) (either (text_eq symbol j))
    where
      either : (b : Bool) → IsPriced (if b then some t else find p.ticker_by_symbol j)
      either true = k
      either false = h j

  given-ArePriced :
      {A B : Type 0} (p : Projector) (o : Outcome A) (k : A → Projector × Outcome B)
      → ArePriced p
      → ((a : A) → o ≡ ok a → ArePriced (k a).0)
      → ArePriced (given p o k).0
  given-ArePriced p (ok a) k h n = n a refl
  given-ArePriced p (raised e) k h n = h

  after-ArePriced :
      {A B : Type 0} (r : Projector × Outcome A) (k : Projector → A → Projector × Outcome B)
      → ArePriced r.0
      → ((p : Projector) (a : A) → ArePriced p → ArePriced (k p a).0)
      → ArePriced (after r k).0
  after-ArePriced (p, ok a) k h n = n p a h
  after-ArePriced (p, raised e) k h n = h

  apply_tickers-ArePriced :
      (at : Datetime) (tickers : List Fields) (p : Projector)
      → ArePriced p
      → ArePriced (apply_tickers py at tickers p).0
  unfolding apply_tickers
  apply_tickers-ArePriced at [] p h = h
  apply_tickers-ArePriced at (ticker ∷ tickers) p h =
      given-ArePriced p (named_ticker py at ticker) _ h λ t e.
        apply_tickers-ArePriced at tickers (put_ticker py p t.0 t.1)
          (put_ticker-ArePriced p t.0 t.1 (named-IsPriced at ticker t e) h)

  apply_ticker_events-ArePriced :
      (at : Datetime) (events : List Fields) (p : Projector)
      → ArePriced p
      → ArePriced (apply_ticker_events py at events p).0
  unfolding apply_ticker_events
  apply_ticker_events-ArePriced at [] p h = h
  apply_ticker_events-ArePriced at (event ∷ events) p h =
      after-ArePriced
        (given p (mapping_sequence (get event Names.tickers))
          λ tickers. apply_tickers py at tickers p)
        _
        (given-ArePriced p (mapping_sequence (get event Names.tickers)) _ h
          λ tickers e. apply_tickers-ArePriced at tickers p h)
        λ q u k. apply_ticker_events-ArePriced at events q k

  no_events-ArePriced :
      (r : Projector × Outcome (Unit {0})) → ArePriced r.0 → ArePriced (no_events py r).0
  no_events-ArePriced (p, ok u) h = h
  no_events-ArePriced (p, raised e) h = h

  given_tickers :
      {A B : Type 0} (p : Projector) (o : Outcome A) (k : A → Projector × Outcome B)
      → ((a : A) → (k a).0.ticker_by_symbol ≡ p.ticker_by_symbol)
      → (given p o k).0.ticker_by_symbol ≡ p.ticker_by_symbol
  given_tickers p (ok a) k h = h a
  given_tickers p (raised e) k h = refl

  after_tickers :
      {A B : Type 0} (p : Projector) (r : Projector × Outcome A)
      (k : Projector → A → Projector × Outcome B)
      → r.0.ticker_by_symbol ≡ p.ticker_by_symbol
      → ((q : Projector) (a : A) → (k q a).0.ticker_by_symbol ≡ q.ticker_by_symbol)
      → (after r k).0.ticker_by_symbol ≡ p.ticker_by_symbol
  after_tickers p (q, ok a) k e h = h q a ∙ e
  after_tickers p (q, raised x) k e h = e

  priced_tickers :
      (symbol : Text) (count received_at : ℕ) (p : Projector) (t : Tally) (o : Option Amount)
      → (priced py symbol count received_at p t o).0.ticker_by_symbol ≡ p.ticker_by_symbol
  priced_tickers symbol count received_at p t none = refl
  priced_tickers symbol count received_at p t (some price) = refl

  project_groups_tickers :
      (at : Datetime) (received_at : ℕ) (groups : TextDict (List Fields)) (done : List QuoteEvent)
      (p : Projector)
      → (project_groups py at received_at groups done p).0.ticker_by_symbol ≡ p.ticker_by_symbol
  unfolding project_groups build_quote_event
  project_groups_tickers at received_at [] done p = refl
  project_groups_tickers at received_at ((symbol, []) ∷ groups) done p =
      project_groups_tickers at received_at groups done p
  project_groups_tickers at received_at ((symbol, trade ∷ trades) ∷ groups) done p =
      after_tickers p (build_quote_event py symbol (trade ∷ trades) at received_at p) _
        (given_tickers p (add_trades py (trade ∷ trades) (no_trades at)) _
          λ t. priced_tickers symbol (length (trade ∷ trades)) received_at p t t.latest_price)
        λ q e. project_groups_tickers at received_at groups (done ++ e ∷ []) q

  project_trades_tickers :
      (payload : Fields) (received_at : ℕ) (p : Projector)
      → (project_trades py payload received_at p).0.ticker_by_symbol ≡ p.ticker_by_symbol
  unfolding project_trades
  project_trades_tickers payload received_at p =
      given_tickers p (timestamp py (get payload Names.timestamp_name)) _ λ at.
        given_tickers p (mapping_sequence (get payload Names.events)) _ λ events.
          given_tickers p (group_events py events []) _
            λ groups. project_groups_tickers at received_at (sorted_items groups) [] p

  apply-ArePriced :
      (payload : Fields) (at : ℕ) (p : Projector)
      → ArePriced p
      → ArePriced (apply py payload at p).0
  unfolding apply apply_ticker ArePriced
  apply-ArePriced payload at p h =
      elim (Bool-cases (text_eq (channel_of py payload) Names.ticker)) [
        | inl y ↦ rw y (
            no_events-ArePriced (apply_ticker py payload p) (
              given-ArePriced p (timestamp py (get payload Names.timestamp_name)) _ h λ t e.
                given-ArePriced p (mapping_sequence (get payload Names.events)) _ h
                  λ events e2. apply_ticker_events-ArePriced t events p h))
        | inr n ↦ elim (Bool-cases (text_eq (channel_of py payload) Names.market_trades)) [
          | inl y ↦
              rw (n, y)
                (λ symbol.
                  subst (λ d. IsPriced (find d symbol)) (sym (project_trades_tickers payload at p))
                    (h symbol))
          | inr m ↦ rw (n, m) h
        ]
      ]

  used-ArePriced : (uses : List Use) (p : Projector) → ArePriced p → ArePriced (used py uses p)
  unfolding used ArePriced clear_connection_state find
  used-ArePriced [] p h = h
  used-ArePriced (message payload at ∷ uses) p h =
      used-ArePriced uses _ (apply-ArePriced payload at p h)
  used-ArePriced (reconnect ∷ uses) p h = used-ArePriced uses _ (λ symbol. tt)

  only_if : (a b : Bool) → a ≡ b → (not a || b) ≡ true
  only_if true b e = ground (arith, e)
  only_if false b e = refl

  -- Of a batch with a trade that could be summed up, at a time with a zone, on a projector that
  -- started without tickers, after any sequence of messages and new connections: the sequence number
  -- of the symbol goes up by one, and the event is returned only if none of its numbers would be
  -- infinite, the symbol fits, the ticker's book is not crossed, and the ticker has both depths or none.
  pub used-returned :
      (uses : List Use) (start : Projector) (symbol : Text) (trade : Fields) (trades : List Fields)
      (at : Datetime) (received_at : ℕ) (t : Tally)
      → start.ticker_by_symbol ≡ []
      → add_trades py (trade ∷ trades) (no_trades at) ≡ ok t
      → at.aware ≡ true
      → let p = used py uses start in
        (find
            (build_quote_event py symbol (trade ∷ trades) at received_at p).0.sequence_by_symbol
            symbol
          ≡ some (next_sequence py p symbol))
        × ((not (returned (build_quote_event py symbol (trade ∷ trades) at received_at p).1)
              || (not (infinite_event (find p.ticker_by_symbol symbol) t)
                  && (fits symbol
                      && orderly
                          (bid_of (find p.ticker_by_symbol symbol))
                          (ask_of (find p.ticker_by_symbol symbol))
                      && two_sided
                          (bid_depth_of (find p.ticker_by_symbol symbol))
                          (ask_depth_of (find p.ticker_by_symbol symbol)))))
            ≡ true)
  unfolding ArePriced find
  used-returned uses start symbol trade trades at received_at t e sum aware =
      let (up, same) =
        build_quote_event-accepts py symbol trade trades at received_at (used py uses start) t sum
          aware
          (used-ArePriced uses start (λ s. subst (λ d. IsPriced (find d s)) (sym e) tt) symbol) in
      (up, only_if _ _ same)
