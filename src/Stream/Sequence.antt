-- ===== src/Stream/Sequence.antt =====
-- storage.py: `RedisStore.observe_sequence`, the detection of gaps in a provider's sequence.
pub mod Gaps
use smart_market_data_gatewa.Prelude.{
  ℕ, ◌+◌, ◌-◌, ltb, leb, ◌==◌, if◌then◌else◌, Option, none, some, List, [], ◌∷◌,
}
use smart_market_data_gatewa.Prelude.Outcome.{Outcome, ok, raised, value_error}
use smart_market_data_gatewa.Domain.Quote.{QuoteEvent}
use smart_market_data_gatewa.Stream.Redis.{
  Redis, GapObservation, Value, quote, minute, number, degraded, mark, sequence,
}

-- What is reported of a number that follows another.
abbrev pub observation : QuoteEvent → ℕ → ℕ → Option GapObservation
observation event previous current =
    if current == previous + 1
    then none
    else some (record {
      symbol = event.symbol;
      previous_sequence = previous;
      current_sequence = current;
      gap = current - previous - 1;
      out_of_order = leb current previous;
    })

module _ {S : Type 0} (r : Redis S) where
  -- Given the number of the event and what is stored; `int()` refuses what is no number.
  abbrev pub observed : S → QuoteEvent → ℕ → Option Value → S × Outcome (Option GapObservation)
  observed s event n none = (r.set s (sequence event.provider event.symbol) (number n), ok none)
  observed s event n (some (number p)) = (
    if ltb p n then r.set s (sequence event.provider event.symbol) (number n) else s,
    ok (observation event p n),
  )
  observed s event n (some (quote e)) = (s, raised value_error)
  observed s event n (some (minute c)) = (s, raised value_error)
  observed s event n (some (degraded g)) = (s, raised value_error)
  observed s event n (some mark) = (s, raised value_error)

  abbrev pub observe : S → QuoteEvent → Option ℕ → S × Outcome (Option GapObservation)
  observe s event none = (s, ok none)
  observe s event (some n) = observed s event n (r.get s (sequence event.provider event.symbol))

  unfoldable pub observe_sequence : S → QuoteEvent → S × Outcome (Option GapObservation)
  observe_sequence s event = observe s event event.sequence

  -- A sequence of events, with what is reported of each.
  unfoldable pub observe_all : S → List QuoteEvent → S × List (Outcome (Option GapObservation))
  observe_all s [] = (s, [])
  observe_all s (event ∷ events) =
      let (s', report) = observe_sequence s event in
      let (s'', reports) = observe_all s' events in (s'', report ∷ reports)
