-- ===== src/Recorder/Messages/Gaps.antt =====
-- recorder.py: the gaps and the duplicates that `_sequence_metadata` finds in a sequence of quotes.
use smart_market_data_gatewa.Prelude.{
  ℕ, ◌+◌, ◌-◌, ◌≡◌, refl, ap, max, ltb, leb, if◌then◌else◌, Option, none, some, List, [], ◌∷◌,
  arith, length, All, Bool-cases, Option-cases, inl, inr,
}
use smart_market_data_gatewa.Prelude.Dict.{get, get-put}
use smart_market_data_gatewa.Domain.Quote.{QuoteEvent}
use smart_market_data_gatewa.Domain.Quote.Numbers.{with_number, numbers, largest}
use smart_market_data_gatewa.Recorder.Messages.{
  Counters, MessageRecorder, SequenceMetadata, of_gap, sequence_metadata, numbered, metadata_all,
}

abbrev pub size_found : Option SequenceMetadata → ℕ
size_found none = 0
size_found (some g) = g.gap_size

-- The numbers that were found missing.
abbrev pub skipped : List (Option SequenceMetadata) → ℕ
skipped [] = 0
skipped (g ∷ gs) = size_found g + skipped gs

abbrev pub flag_found : Option SequenceMetadata → ℕ
flag_found none = 0
flag_found (some g) = if g.sequence_gap then 1 else 0

-- How many quotes are flagged as standing after a gap.
abbrev pub flagged : List (Option SequenceMetadata) → ℕ
flagged [] = 0
flagged (g ∷ gs) = flag_found g + flagged gs

-- What one quote with number n does after the number p of its symbol.
abbrev IsStep : ℕ → ℕ → Counters → Counters → Option SequenceMetadata → Type 0
IsStep p n c d found =
    (max p n + d.duplicates ≡ p + c.duplicates + 1 + size_found found)
    × (d.gaps ≡ c.gaps + flag_found found)

numbered-IsStep :
    (m : MessageRecorder) (symbol n p : ℕ)
    → IsStep p n m.counters
        (numbered m symbol n (some p)).0.counters
        (numbered m symbol n (some p)).1
numbered-IsStep m symbol n p = elim (Bool-cases (leb n p)) [
  | inl old ↦ rw old (ground (arith, old), omega arith)
  | inr new ↦ elim (Bool-cases (ltb 0 (n - p - 1))) [
    | inl gap ↦ rw (new, gap) (ground (arith, new), refl)
    | inr next ↦ rw (new, next) (ground (arith, new), omega arith)
  ]
]

sequence_metadata_lem :
    (m : MessageRecorder) (q : QuoteEvent) (symbol n p : ℕ)
    → q.symbol ≡ symbol
    → q.sequence ≡ some n
    → get m.last_sequence symbol ≡ some p
    → (get (sequence_metadata m q).0.last_sequence symbol ≡ some (max p n))
      × IsStep p n m.counters (sequence_metadata m q).0.counters (sequence_metadata m q).1
unfolding sequence_metadata
sequence_metadata_lem m q symbol n p of e g =
    rw (e, of, g)
      (ground (arith, g, get-put m.last_sequence symbol symbol n), numbered-IsStep m symbol n p)

-- Over any quotes of one symbol, after a last number: the largest number so far is the last at the
-- end; that plus the duplicates counted is the last number at the start plus the quotes with a
-- number plus the numbers found missing; and the gaps counted are the quotes flagged.
pub metadata_all_lem :
    (m : MessageRecorder) (qs : List QuoteEvent) (symbol p : ℕ)
    → All (λ q. q.symbol ≡ symbol) qs
    → get m.last_sequence symbol ≡ some p
    → (get (metadata_all m qs).0.last_sequence symbol ≡ some (largest p (numbers qs)))
      × (largest p (numbers qs) + (metadata_all m qs).0.counters.duplicates
          ≡ p + m.counters.duplicates + length (numbers qs) + skipped (metadata_all m qs).1)
      × ((metadata_all m qs).0.counters.gaps ≡ m.counters.gaps + flagged (metadata_all m qs).1)
unfolding metadata_all
metadata_all_lem m [] symbol p of g = (g, omega arith, omega arith)
metadata_all_lem m (q ∷ qs) symbol p (one, of) g = elim (Option-cases q.sequence) [
  | inl e ↦
      let same : sequence_metadata m q ≡ (m, some (of_gap 0)) =
        unfold sequence_metadata in rw e refl in
      let (last, balance, gaps) = metadata_all_lem m qs symbol p of g in
      rw (same, ap (λ o. with_number o (numbers qs)) e)
        (last, omega (arith, balance), omega (arith, gaps))
  | inr (n, e) ↦
      let (taken, (step, flag)) = sequence_metadata_lem m q symbol n p one e g in
      let (last, balance, gaps) =
        metadata_all_lem (sequence_metadata m q).0 qs symbol (max p n) of taken in
      rw (ap (λ o. with_number o (numbers qs)) e)
        (last, omega (arith, balance, step), omega (arith, gaps, flag))
]
