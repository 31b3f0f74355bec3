-- ===== src/Domain/Quote/Numbers.antt =====
-- The sequence numbers of a list of quotes.
use smart_market_data_gatewa.Prelude.{ℕ, max, Option, none, some, List, [], ◌∷◌}
use smart_market_data_gatewa.Domain.Quote.{QuoteEvent}

abbrev pub with_number : Option ℕ → List ℕ → List ℕ
with_number none ns = ns
with_number (some n) ns = n ∷ ns

-- The numbers of the events that have one.
abbrev pub numbers : List QuoteEvent → List ℕ
numbers [] = []
numbers (event ∷ events) = with_number event.sequence (numbers events)

abbrev pub largest : ℕ → List ℕ → ℕ
largest p [] = p
largest p (n ∷ ns) = largest (max p n) ns
