-- ===== src/Prelude/Text.antt =====
-- Texts as lists of code points, their order, and sets of them.
use Prim.Native.Nat.{ℕ, ◌+◌, ◌-◌}
use mathlib.Core.Path.{◌≡◌, refl, ap}
use mathlib.Core.Logic.{◌↔◌}
use mathlib.Core.Bool.{Bool, true, false, ◌&&◌, ◌||◌}
use mathlib.Core.List.{List, [], ◌∷◌, ◌++◌, map}
use native.Mathlib.Omega.{arith}
use smart_market_data_gatewa.Prelude.Tests.{ltb, leb, ◌==◌, if◌then◌else◌}

abbrev pub Text : Type 0
Text = List ℕ

abbrev pub text_eq : Text → Text → Bool
text_eq [] [] = true
text_eq [] (d ∷ t) = false
text_eq (c ∷ s) [] = false
text_eq (c ∷ s) (d ∷ t) = (c == d) && text_eq s t

abbrev pub text_lt : Text → Text → Bool
text_lt [] [] = false
text_lt [] (d ∷ t) = true
text_lt (c ∷ s) [] = false
text_lt (c ∷ s) (d ∷ t) = ltb c d || ((c == d) && text_lt s t)

pub text_eq→eq : (s t : Text) → text_eq s t ≡ true → s ≡ t
text_eq→eq [] [] h = refl
text_eq→eq [] (d ∷ t) h = cc
text_eq→eq (c ∷ s) [] h = cc
text_eq→eq (c ∷ s) (d ∷ t) h = ground (arith, text_eq→eq s t)

pub text_eq_refl : (s : Text) → text_eq s s ≡ true
text_eq_refl [] = refl
text_eq_refl (c ∷ s) = ground (arith, text_eq_refl s)

pub text_eq_iff : (s t : Text) → (text_eq s t ≡ true) ↔ (s ≡ t)
text_eq_iff s t = (text_eq→eq s t, λ e. rw e (text_eq_refl t))

-- A set of texts, sorted.
unfoldable pub insert_text : Text → List Text → List Text
insert_text s [] = s ∷ []
insert_text s (t ∷ ts) =
    let rest = t ∷ insert_text s ts in
    if text_eq s t then t ∷ ts else if text_lt s t then s ∷ t ∷ ts else rest

unfoldable pub sorted_texts : List Text → List Text
sorted_texts [] = []
sorted_texts (s ∷ ss) = insert_text s (sorted_texts ss)

-- `s in texts`, `texts.add(s)`, `texts.discard(s)`
unfoldable pub has_text : List Text → Text → Bool
has_text [] s = false
has_text (t ∷ ts) s = text_eq t s || has_text ts s

unfoldable pub add_text : Text → List Text → List Text
add_text s ts = if has_text ts s then ts else ts ++ s ∷ []

unfoldable pub discard_text : Text → List Text → List Text
discard_text s [] = []
discard_text s (t ∷ ts) = let rest = discard_text s ts in if text_eq t s then rest else t ∷ rest

has_text-append :
    (ss ts : List Text) (t : Text) → has_text (ss ++ ts) t ≡ (has_text ss t || has_text ts t)
unfolding has_text
has_text-append [] ts t = refl
has_text-append (s ∷ ss) ts t = ground (arith, has_text-append ss ts t)

pub has_text-add_text :
    (s t : Text) (ts : List Text) → has_text (add_text s ts) t ≡ (text_eq s t || has_text ts t)
unfolding add_text has_text
has_text-add_text s t ts = ground (arith, has_text-append ts (s ∷ []) t, text_eq_iff s t)

pub has_text-discard_text :
    (s t : Text) (ts : List Text)
    → has_text (discard_text s ts) t ≡ (if text_eq s t then false else has_text ts t)
unfolding discard_text has_text
has_text-discard_text s t [] = ground arith
has_text-discard_text s t (u ∷ us) =
    ground (arith, has_text-discard_text s t us, text_eq_iff s t, text_eq_iff u s, text_eq_iff u t)

-- `str.lower` and `str.upper`, on ASCII letters.
unfoldable pub lower : Text → Text
lower = map λ c. if leb 65 c && leb c 90 then c + 32 else c

unfoldable pub upper : Text → Text
upper = map λ c. if leb 97 c && leb c 122 then c - 32 else c

pub upper-upper : (s : Text) → upper (upper s) ≡ upper s
unfolding upper
upper-upper [] = refl
upper-upper (c ∷ s) = rw (upper-upper s) (ap (λ d. d ∷ upper s) (twice c))
  where
    twice :
        (c : ℕ)
        → (let d = if leb 97 c && leb c 122 then c - 32 else c in
            if leb 97 d && leb d 122 then d - 32 else d)
          ≡ (if leb 97 c && leb c 122 then c - 32 else c)
    twice c = ground arith
