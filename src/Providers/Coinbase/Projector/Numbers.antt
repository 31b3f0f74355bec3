-- ===== src/Providers/Coinbase/Projector/Numbers.antt =====
-- The local sequence numbers that the projector gives to the events of a symbol.
use smart_market_data_gatewa.Prelude.{
  ℕ, ◌≤◌, ◌<◌, ◌≡◌, refl, Option, none, some, List, [], ◌∷◌, ◌++◌, length, arith, All, All-append,
}
use smart_market_data_gatewa.Prelude.Text.{Text, text_eq_iff}
use smart_market_data_gatewa.Prelude.TextDict.{
  TextDict, or_default, find, find-assign, sorted_items,
}
use smart_market_data_gatewa.Prelude.Outcome.{Outcome, ok, raised}
use smart_market_data_gatewa.Domain.Evidence.{Datetime}
use smart_market_data_gatewa.Domain.Quote.{QuoteEvent}
use smart_market_data_gatewa.Providers.Coinbase.Json.{Fields, Python, get}
use smart_market_data_gatewa.Providers.Coinbase.Names
use smart_market_data_gatewa.Providers.Coinbase.Values.{Amount, mapping_sequence, timestamp}
use smart_market_data_gatewa.Providers.Coinbase.Trades.{Tally, no_trades, add_trades}
use smart_market_data_gatewa.Providers.Coinbase.Projector.{
  Projector, given, after, next_sequence, priced, build_quote_event, project_groups, project_trades,
  group_events,
}
use smart_market_data_gatewa.Providers.Coinbase.Projector.Content.{build_quote_event-IsOf}

-- The last number of a symbol.
abbrev pub last : Projector → Text → ℕ
last p symbol = or_default (find p.sequence_by_symbol symbol) 0

unfoldable pub Rises : Projector → Projector → Type 0
Rises p q = (symbol : Text) → last p symbol ≤ last q symbol

pub Rises-trans : (p q r : Projector) → Rises p q → Rises q r → Rises p r
unfolding Rises
Rises-trans p q r a b symbol = omega (arith, a symbol, b symbol)

pub same_Rises : (p q : Projector) → q.sequence_by_symbol ≡ p.sequence_by_symbol → Rises p q
unfolding Rises
same_Rises p q e symbol = ground (arith, e)

module _ (py : Python) where
  -- The event's number is above the last before, and at most the last after.
  pub record IsNumbered (p q : Projector) (e : QuoteEvent) : Type 0 where
    pub symbol : Text
    pub number : ℕ
    pub named : e.symbol ≡ py.code symbol
    pub numbered : e.sequence ≡ some number
    pub above : last p symbol < number
    pub within : number ≤ last q symbol

  IsNumbered-Rises :
      (p q r : Projector) (e : QuoteEvent) → Rises q r → IsNumbered p q e → IsNumbered p r e
  unfolding Rises
  IsNumbered-Rises p q r e a h = record {
    symbol = h.symbol;
    number = h.number;
    named = h.named;
    numbered = h.numbered;
    above = h.above;
    within = omega (arith, h.within, a h.symbol);
  }

  IsNumbered-Rises-left :
      (p q r : Projector) (e : QuoteEvent) → Rises p q → IsNumbered q r e → IsNumbered p r e
  unfolding Rises
  IsNumbered-Rises-left p q r e a h = record {
    symbol = h.symbol;
    number = h.number;
    named = h.named;
    numbered = h.numbered;
    above = omega (arith, h.above, a h.symbol);
    within = h.within;
  }

  All-IsNumbered :
      (p q r : Projector) (es : List QuoteEvent)
      → Rises q r
      → All (IsNumbered p q) es
      → All (IsNumbered p r) es
  All-IsNumbered p q r [] a h = tt
  All-IsNumbered p q r (e ∷ es) a h =
      (IsNumbered-Rises p q r e a h.0, All-IsNumbered p q r es a h.1)

  priced-Rises :
      (symbol : Text) (count received_at : ℕ) (p : Projector) (t : Tally) (o : Option Amount)
      → Rises p (priced py symbol count received_at p t o).0
  unfolding Rises
  priced-Rises symbol count received_at p t none j = omega arith
  priced-Rises symbol count received_at p t (some price) j = ground (
    arith,
    find-assign p.sequence_by_symbol symbol j (next_sequence py p symbol),
    text_eq_iff symbol j,
  )

  given-Rises :
      {A B : Type 0} (p : Projector) (o : Outcome A) (k : A → Projector × Outcome B)
      → ((a : A) → Rises p (k a).0)
      → Rises p (given p o k).0
  given-Rises p (ok a) k h = h a
  given-Rises p (raised e) k h = same_Rises p p refl

  build_quote_event-Rises :
      (symbol : Text) (trades : List Fields) (at : Datetime) (received_at : ℕ) (p : Projector)
      → Rises p (build_quote_event py symbol trades at received_at p).0
  unfolding build_quote_event
  build_quote_event-Rises symbol trades at received_at p =
      given-Rises p (add_trades py trades (no_trades at)) _
        λ t. priced-Rises symbol (length trades) received_at p t t.latest_price

  -- The events of a message, each numbered, if it returned any; and no number goes down.
  unfoldable pub AreNumbered : Projector → Projector × Outcome (List QuoteEvent) → Type 0
  AreNumbered p (q, ok es) = Rises p q × All (IsNumbered p q) es
  AreNumbered p (q, raised e) = Rises p q × Unit

  after-AreNumbered :
      {A : Type 0} (p : Projector) (r : Projector × Outcome A)
      (k : Projector → A → Projector × Outcome (List QuoteEvent))
      → Rises p r.0
      → ((a : A) → r.1 ≡ ok a → AreNumbered p (k r.0 a))
      → AreNumbered p (after r k)
  unfolding AreNumbered
  after-AreNumbered p (q, ok a) k h n = n a refl
  after-AreNumbered p (q, raised e) k h n = (h, tt)

  build_quote_event-IsNumbered :
      (symbol : Text) (trades : List Fields) (at : Datetime) (received_at : ℕ) (p : Projector)
      (e : QuoteEvent)
      → (build_quote_event py symbol trades at received_at p).1 ≡ ok e
      → IsNumbered p (build_quote_event py symbol trades at received_at p).0 e
  build_quote_event-IsNumbered symbol trades at received_at p e h =
      let (of, put) = build_quote_event-IsOf py symbol trades at received_at p e h in
      record {
        symbol = symbol;
        number = next_sequence py p symbol;
        named = of.named;
        numbered = of.numbered;
        above = omega arith;
        within = ground (arith, put);
      }

  project_groups-AreNumbered :
      (at : Datetime) (received_at : ℕ) (groups : TextDict (List Fields)) (done : List QuoteEvent)
      (p q : Projector)
      → Rises p q
      → All (IsNumbered p q) done
      → AreNumbered p (project_groups py at received_at groups done q)
  unfolding project_groups AreNumbered
  project_groups-AreNumbered at received_at [] done p q a h = (a, h)
  project_groups-AreNumbered at received_at ((symbol, []) ∷ groups) done p q a h =
      project_groups-AreNumbered at received_at groups done p q a h
  project_groups-AreNumbered at received_at ((symbol, trade ∷ trades) ∷ groups) done p q a h =
      let made = build_quote_event py symbol (trade ∷ trades) at received_at q in
      let up = build_quote_event-Rises symbol (trade ∷ trades) at received_at q in
      after-AreNumbered p made _ (Rises-trans p q made.0 a up) λ e returned.
        project_groups-AreNumbered at received_at groups (done ++ e ∷ []) p made.0
          (Rises-trans p q made.0 a up)
          (All-append (IsNumbered p made.0) done (e ∷ []) (All-IsNumbered p q made.0 done up h) (
            IsNumbered-Rises-left p q made.0 e a
                (build_quote_event-IsNumbered symbol (trade ∷ trades) at received_at q e returned),
            tt,
          ))

  given-AreNumbered :
      {A : Type 0} (p : Projector) (o : Outcome A) (k : A → Projector × Outcome (List QuoteEvent))
      → ((a : A) → AreNumbered p (k a))
      → AreNumbered p (given p o k)
  unfolding AreNumbered
  given-AreNumbered p (ok a) k h = h a
  given-AreNumbered p (raised e) k h = (same_Rises p p refl, tt)

  pub project_trades-AreNumbered :
      (payload : Fields) (received_at : ℕ) (p : Projector)
      → AreNumbered p (project_trades py payload received_at p)
  unfolding project_trades
  project_trades-AreNumbered payload received_at p =
      given-AreNumbered p (timestamp py (get payload Names.timestamp_name)) _ λ at.
        given-AreNumbered p (mapping_sequence (get payload Names.events)) _ λ events.
          given-AreNumbered p (group_events py events []) _ λ groups.
            project_groups-AreNumbered at received_at (sorted_items groups) [] p p
              (same_Rises p p refl) tt
