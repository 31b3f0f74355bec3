-- ===== src/Providers/Coinbase/Projector/Rising.antt =====
-- Over any sequence of messages and connections, the events of a symbol are numbered upwards.
use smart_market_data_gatewa.Prelude.{
  ℕ, ◌<◌, ◌≡◌, ◌∙◌, sym, refl, subst, Option, none, some, List, [], ◌∷◌, arith, Bool-cases, inl,
  inr, All,
}
use smart_market_data_gatewa.Prelude.Text.{Text, text_eq}
use smart_market_data_gatewa.Prelude.Outcome.{Outcome, ok, raised, ok_inj}
use smart_market_data_gatewa.Domain.Evidence.{Datetime}
use smart_market_data_gatewa.Domain.Quote.{QuoteEvent}
use smart_market_data_gatewa.Providers.Coinbase.Json.{Fields, Python, get}
use smart_market_data_gatewa.Providers.Coinbase.Names
use smart_market_data_gatewa.Providers.Coinbase.Values.{mapping_sequence, timestamp}
use smart_market_data_gatewa.Providers.Coinbase.Ticker.{named_ticker}
use smart_market_data_gatewa.Providers.Coinbase.Projector.{
  Projector, given, after, apply_tickers, apply_ticker_events, apply_ticker, apply,
  clear_connection_state, no_events, channel_of, put_ticker,
}
use smart_market_data_gatewa.Providers.Coinbase.Projector.Numbers.{
  Rises, Rises-trans, same_Rises, IsNumbered, AreNumbered, project_trades-AreNumbered,
}

-- What the provider does with its projector: a message, or a new connection.
pub data Use : Type 0 where
  message : Fields → ℕ → Use
  reconnect : Use

module _ (py : Python) where
  given_sequences :
      {A B : Type 0} (p : Projector) (o : Outcome A) (k : A → Projector × Outcome B)
      → ((a : A) → (k a).0.sequence_by_symbol ≡ p.sequence_by_symbol)
      → (given p o k).0.sequence_by_symbol ≡ p.sequence_by_symbol
  given_sequences p (ok a) k h = h a
  given_sequences p (raised e) k h = refl

  after_sequences :
      {A B : Type 0} (p : Projector) (r : Projector × Outcome A)
      (k : Projector → A → Projector × Outcome B)
      → r.0.sequence_by_symbol ≡ p.sequence_by_symbol
      → ((q : Projector) (a : A) → (k q a).0.sequence_by_symbol ≡ q.sequence_by_symbol)
      → (after r k).0.sequence_by_symbol ≡ p.sequence_by_symbol
  after_sequences p (q, ok a) k e h = h q a ∙ e
  after_sequences p (q, raised x) k e h = e

  apply_tickers_sequences :
      (at : Datetime) (tickers : List Fields) (p : Projector)
      → (apply_tickers py at tickers p).0.sequence_by_symbol ≡ p.sequence_by_symbol
  unfolding apply_tickers
  apply_tickers_sequences at [] p = refl
  apply_tickers_sequences at (ticker ∷ tickers) p =
      given_sequences p (named_ticker py at ticker) _
        λ t. apply_tickers_sequences at tickers (put_ticker py p t.0 t.1)

  apply_ticker_events_sequences :
      (at : Datetime) (events : List Fields) (p : Projector)
      → (apply_ticker_events py at events p).0.sequence_by_symbol ≡ p.sequence_by_symbol
  unfolding apply_ticker_events
  apply_ticker_events_sequences at [] p = refl
  apply_ticker_events_sequences at (event ∷ events) p =
      after_sequences p
        (given p (mapping_sequence (get event Names.tickers))
          λ tickers. apply_tickers py at tickers p)
        _
        (given_sequences p (mapping_sequence (get event Names.tickers)) _
          λ tickers. apply_tickers_sequences at tickers p)
        λ q u. apply_ticker_events_sequences at events q

  apply_ticker_sequences :
      (payload : Fields) (p : Projector)
      → (apply_ticker py payload p).0.sequence_by_symbol ≡ p.sequence_by_symbol
  unfolding apply_ticker
  apply_ticker_sequences payload p =
      given_sequences p (timestamp py (get payload Names.timestamp_name)) _ λ at.
        given_sequences p (mapping_sequence (get payload Names.events)) _
          λ events. apply_ticker_events_sequences at events p

  no_events-AreNumbered :
      (p : Projector) (r : Projector × Outcome (Unit {0}))
      → r.0.sequence_by_symbol ≡ p.sequence_by_symbol
      → AreNumbered py p (no_events py r)
  unfolding AreNumbered
  no_events-AreNumbered p (q, ok u) e = (same_Rises p q e, tt)
  no_events-AreNumbered p (q, raised x) e = (same_Rises p q e, tt)

  apply-AreNumbered :
      (payload : Fields) (received_at : ℕ) (p : Projector)
      → AreNumbered py p (apply py payload received_at p)
  unfolding apply AreNumbered
  apply-AreNumbered payload received_at p =
      elim (Bool-cases (text_eq (channel_of py payload) Names.ticker)) [
        | inl y ↦
            rw y (
              no_events-AreNumbered p (apply_ticker py payload p)
                (apply_ticker_sequences payload p))
        | inr n ↦ elim (Bool-cases (text_eq (channel_of py payload) Names.market_trades)) [
          | inl y ↦ rw (n, y) (project_trades-AreNumbered py payload received_at p)
          | inr m ↦ rw (n, m) (same_Rises p p refl, tt)
        ]
      ]

  fields_Rises :
      (p : Projector) (r : Projector × Outcome (List QuoteEvent)) → AreNumbered py p r → Rises p r.0
  unfolding AreNumbered
  fields_Rises p (q, ok es) h = h.0
  fields_Rises p (q, raised e) h = h.0

  of_events :
      (p : Projector) (r : Projector × Outcome (List QuoteEvent)) (es : List QuoteEvent)
      → AreNumbered py p r
      → r.1 ≡ ok es
      → All (IsNumbered py p r.0) es
  unfolding AreNumbered
  of_events p (q, ok fs) es h e = subst (All (IsNumbered py p q)) (ok_inj e) h.1
  of_events p (q, raised x) es h e = absurd cc

  unfoldable pub used : List Use → Projector → Projector
  used [] p = p
  used (message payload received_at ∷ uses) p = used uses (apply py payload received_at p).0
  used (reconnect ∷ uses) p = used uses (clear_connection_state p)

  used-Rises : (uses : List Use) (p : Projector) → Rises p (used uses p)
  unfolding used clear_connection_state
  used-Rises [] p = same_Rises p p refl
  used-Rises (message payload received_at ∷ uses) p =
      Rises-trans p (apply py payload received_at p).0 _
        (fields_Rises p _ (apply-AreNumbered payload received_at p)) (used-Rises uses _)
  used-Rises (reconnect ∷ uses) p =
      Rises-trans p (clear_connection_state p) _ (same_Rises p _ refl) (used-Rises uses _)

  abbrev pub Below : Option ℕ → Option ℕ → Type 0
  Below (some m) (some n) = m < n
  Below (some m) none = ⊥
  Below none o = ⊥

  -- The events of the second list are numbered above those of the first of the same symbol.
  abbrev pub AreBelow : List QuoteEvent → List QuoteEvent → Type 0
  AreBelow es fs =
      All
        (λ (e : QuoteEvent).
          All (λ (f : QuoteEvent). e.symbol ≡ f.symbol → Below e.sequence f.sequence) fs)
        es

  rising_one :
      ((s t : Text) → py.code s ≡ py.code t → s ≡ t)
      → (p q r t : Projector) (e : QuoteEvent) (fs : List QuoteEvent) → Rises q r
      → IsNumbered py p q e
      → All (IsNumbered py r t) fs
      → All (λ (f : QuoteEvent). e.symbol ≡ f.symbol → Below e.sequence f.sequence) fs
  unfolding Rises
  rising_one inj p q r t e [] up h k = tt
  rising_one inj p q r t e (f ∷ fs) up h k = (
    λ same.
        let symbols : h.symbol ≡ k.0.symbol =
          inj h.symbol k.0.symbol (sym h.named ∙ same ∙ k.0.named) in
        rw (h.numbered, k.0.numbered) (ground (arith, h.within, k.0.above, up h.symbol, symbols)),
    rising_one inj p q r t e fs up h k.1,
  )

  rising_all :
      ((s t : Text) → py.code s ≡ py.code t → s ≡ t)
      → (p q r t : Projector) (es fs : List QuoteEvent) → Rises q r
      → All (IsNumbered py p q) es
      → All (IsNumbered py r t) fs
      → AreBelow es fs
  rising_all inj p q r t [] fs up h k = tt
  rising_all inj p q r t (e ∷ es) fs up h k =
      (rising_one inj p q r t e fs up h.0 k, rising_all inj p q r t es fs up h.1 k)

  -- With different numbers for different symbols: the events of a message are numbered above the
  -- events of the same symbol of any earlier message, whatever messages, refused ones included, and
  -- new connections lie between.
  pub apply-rising :
      (injective : (s t : Text) → py.code s ≡ py.code t → s ≡ t) (p : Projector)
      (early late : Fields) (early_at late_at : ℕ) (between : List Use) (es fs : List QuoteEvent)
      → (apply py early early_at p).1 ≡ ok es
      → (apply py late late_at (used between (apply py early early_at p).0)).1 ≡ ok fs
      → AreBelow es fs
  apply-rising injective p early late early_at late_at between es fs a b =
      let q = (apply py early early_at p).0 in
      let r = used between q in
      rising_all injective p q r (apply py late late_at r).0 es fs (used-Rises between q)
        (of_events p (apply py early early_at p) es (apply-AreNumbered early early_at p) a)
        (of_events r (apply py late late_at r) fs (apply-AreNumbered late late_at r) b)
