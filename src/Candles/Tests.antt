-- ===== src/Candles/Tests.antt =====
-- The candle of two quotes of a minute.
use mathlib.Core.List.{Permᴰ, Mem, Memᴰ, Nodup, Nodup-cons, Pairwise, not-mem-nil}
use mathlib.Core.Logic.{∥∥₁_elim}
use smart_market_data_gatewa.Prelude.{ℕ, ◌≡◌, none, [], ◌∷◌, arith, refl, true}
use smart_market_data_gatewa.Prelude.Outcome.{ok}
use smart_market_data_gatewa.Domain.Quote.{QuoteEvent, sample}
use smart_market_data_gatewa.Candles.Arrival.{event_ids, absorb_all, absorb_all-perm}

abbrev later : QuoteEvent
later = record sample {
  event_id = 8;
  price = 103;
  provider_timestamp = record { micros = 130000000; aware = true };
}

number-set : IsSet ℕ
number-set = hlevel

in_one : (a b : ℕ) → Mem a (b ∷ []) → a ≡ b
in_one a b m = ∥∥₁_elim m (number-set a b) go
  where
    go : Memᴰ a (b ∷ []) → a ≡ b
    go (Memᴰ.head e) = e
    go (Memᴰ.tail d) = absurd (not-mem-nil ∣ d ∣₁)

distinct : Nodup (event_ids (sample ∷ later ∷ []))
distinct =
    Nodup-cons.1 (λ m. omega (arith, in_one 7 8 m), Nodup-cons.1 (λ m. not-mem-nil m, Pairwise.nil))

perm_example :
    absorb_all (ok none) (sample ∷ later ∷ []) ≡ absorb_all (ok none) (later ∷ sample ∷ [])
perm_example =
    absorb_all-perm (ok none) (sample ∷ later ∷ []) (later ∷ sample ∷ []) ∣ Permᴰ.swap refl refl ∣₁
      distinct
