-- ===== src/Stream/Sequence/Gaps.antt =====
-- storage.py: the reports of `RedisStore.observe_sequence` over a sequence of events.
use smart_market_data_gatewa.Prelude.{
  ℕ, ◌+◌, ◌≡◌, refl, ap, max, ◌==◌, if◌then◌else◌, Option, none, some, List, [], ◌∷◌, arith, length,
  All, Bool-cases, Option-cases, inl, inr, ==_refl,
}
use smart_market_data_gatewa.Prelude.Outcome.{Outcome, ok, raised}
use smart_market_data_gatewa.Domain.Quote.{QuoteEvent}
use smart_market_data_gatewa.Domain.Quote.Numbers.{with_number, numbers, largest}
use smart_market_data_gatewa.Stream.Redis.{Redis, IsRedis, GapObservation, number, sequence}
use smart_market_data_gatewa.Stream.Sequence.{observation, observe_sequence, observe_all}

-- The size of a reported gap.
abbrev pub skipped_of : Outcome (Option GapObservation) → ℕ
skipped_of (raised e) = 0
skipped_of (ok none) = 0
skipped_of (ok (some g)) = g.gap

-- The numbers that were reported missing.
abbrev pub skipped : List (Outcome (Option GapObservation)) → ℕ
skipped [] = 0
skipped (o ∷ os) = skipped_of o + skipped os

abbrev pub disorder_of : Outcome (Option GapObservation) → ℕ
disorder_of (raised e) = 0
disorder_of (ok none) = 0
disorder_of (ok (some g)) = if g.out_of_order then 1 else 0

-- How many events were reported out of order.
abbrev pub disorders : List (Outcome (Option GapObservation)) → ℕ
disorders [] = 0
disorders (o ∷ os) = disorder_of o + disorders os

abbrev pub IsOf : ℕ → ℕ → QuoteEvent → Type 0
IsOf provider symbol event = (event.provider ≡ provider) × (event.symbol ≡ symbol)

-- One report balances the number that is stored.
observation_lem :
    (event : QuoteEvent) (p n : ℕ)
    → max p n + disorder_of (ok (observation event p n))
      ≡ p + 1 + skipped_of (ok (observation event p n))
observation_lem event p n = elim (Bool-cases (n == p + 1)) [
  | inl next ↦ rw next (ground (arith, next))
  | inr other ↦ rw other (ground (arith, other))
]

module _ {S : Type 0} (r : Redis S) (redis : IsRedis r) where
  observe_sequence_lem :
      (s : S) (event : QuoteEvent) (provider symbol n p : ℕ)
      → IsOf provider symbol event
      → event.sequence ≡ some n
      → r.get s (sequence provider symbol) ≡ some (number p)
      → (r.get (observe_sequence r s event).0 (sequence provider symbol) ≡ some (number (max p n)))
        × ((observe_sequence r s event).1 ≡ ok (observation event p n))
  unfolding observe_sequence
  observe_sequence_lem s event provider symbol n p of e q =
      rw (e, of.0, of.1, q)
        (
          ground (
            arith,
            q,
            redis.get-set s (sequence provider symbol) (number n) (sequence provider symbol),
            ==_refl provider,
            ==_refl symbol,
          ),
          refl,
        )

  -- Over any events of one provider and symbol, after a stored number: the largest number so far is
  -- stored at the end, and that plus the events reported out of order is the stored number at the
  -- start plus the events with a number plus the numbers reported missing.
  pub observe_all_lem :
      (s : S) (events : List QuoteEvent) (provider symbol p : ℕ)
      → All (IsOf provider symbol) events
      → r.get s (sequence provider symbol) ≡ some (number p)
      → (r.get (observe_all r s events).0 (sequence provider symbol)
          ≡ some (number (largest p (numbers events))))
        × (largest p (numbers events) + disorders (observe_all r s events).1
            ≡ p + length (numbers events) + skipped (observe_all r s events).1)
  unfolding observe_all
  observe_all_lem s [] provider symbol p of q = (q, omega arith)
  observe_all_lem s (event ∷ events) provider symbol p (one, of) q =
      elim (Option-cases event.sequence) [
        | inl e ↦
            let same : observe_sequence r s event ≡ (s, ok none) =
              unfold observe_sequence in rw e refl in
            let (stored, balance) = observe_all_lem s events provider symbol p of q in
            rw (same, e) (stored, omega (arith, balance))
        | inr (n, e) ↦
            let (stored, reported) = observe_sequence_lem s event provider symbol n p one e q in
            let (last, balance) =
              observe_all_lem (observe_sequence r s event).0 events provider symbol (max p n) of
                stored in
            rw (ap (λ o. with_number o (numbers events)) e, reported)
              (last, omega (arith, balance, observation_lem event p n))
      ]
