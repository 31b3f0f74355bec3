-- ===== src/Prelude/Lists.antt =====
-- Lists measured by native numbers, and predicates on lists by recursion.
use Prim.Native.Nat.{ℕ, zero, suc, ◌+◌, ◌-◌, ◌<◌}
use mathlib.Core.Path.{◌≡◌, refl, ◌∙◌, subst}
use mathlib.Core.Bool.{Bool, true, false, ◌||◌}
use mathlib.Core.List.{List, [], ◌∷◌, ◌++◌}
use native.Mathlib.Omega.{arith}
use smart_market_data_gatewa.Prelude.Tests.{leb, ◌==◌, if◌then◌else◌, Bool-cases, ==_iff}
use mathlib.Core.Logic.{inl, inr}

module _ {ℓ} {A : Type ℓ} where
  abbrev pub length : List A → ℕ
  length [] = 0
  length (x ∷ xs) = suc (length xs)

  abbrev pub drop : ℕ → List A → List A
  drop zero xs = xs
  drop (suc n) [] = []
  drop (suc n) (x ∷ xs) = drop n xs

  pub length-append : (xs ys : List A) → length (xs ++ ys) ≡ length xs + length ys
  length-append [] ys = omega arith
  length-append (x ∷ xs) ys = omega (arith, length-append xs ys)

  pub length-drop : (n : ℕ) (xs : List A) → length (drop n xs) ≡ length xs - n
  length-drop zero xs = omega arith
  length-drop (suc n) [] = omega arith
  length-drop (suc n) (x ∷ xs) = omega (arith, length-drop n xs)

  abbrev pub All {κ} : (A → Type κ) → List A → Type κ
  All P [] = Unit
  All P (x ∷ xs) = P x × All P xs

  pub All-append {κ} : (P : A → Type κ) (xs ys : List A) → All P xs → All P ys → All P (xs ++ ys)
  All-append P [] ys h k = k
  All-append P (x ∷ xs) ys h k = (h.0, All-append P xs ys h.1 k)

  pub All-drop {κ} : (P : A → Type κ) (n : ℕ) (xs : List A) → All P xs → All P (drop n xs)
  All-drop P zero xs h = h
  All-drop P (suc n) [] h = tt
  All-drop P (suc n) (x ∷ xs) h = All-drop P n xs h.1

-- Sets of numbers as lists: `x in s`, `s.add(x)`, `s.discard(x)`.
unfoldable pub contains : List ℕ → ℕ → Bool
contains [] a = false
contains (x ∷ xs) a = (x == a) || contains xs a

unfoldable pub insert : ℕ → List ℕ → List ℕ
insert a xs = if contains xs a then xs else xs ++ a ∷ []

unfoldable pub discard : ℕ → List ℕ → List ℕ
discard a [] = []
discard a (x ∷ xs) = let rest = discard a xs in if x == a then rest else x ∷ rest

contains-append :
    (xs ys : List ℕ) (a : ℕ) → contains (xs ++ ys) a ≡ (contains xs a || contains ys a)
unfolding contains
contains-append [] ys a = refl
contains-append (x ∷ xs) ys a = ground (arith, contains-append xs ys a)

pub contains-insert :
    (a b : ℕ) (xs : List ℕ) → contains (insert a xs) b ≡ ((a == b) || contains xs b)
unfolding insert contains
contains-insert a b xs = ground (arith, contains-append xs (a ∷ []) b)

pub contains-discard :
    (a b : ℕ) (xs : List ℕ) → contains (discard a xs) b ≡ (if a == b then false else contains xs b)
unfolding discard contains
contains-discard a b [] = ground arith
contains-discard a b (x ∷ xs) = ground (arith, contains-discard a b xs)

-- Strictly ascending, and without repetition.
abbrev pub Ascending : List ℕ → Type 0
Ascending [] = Unit
Ascending (x ∷ xs) = All (λ y. x < y) xs × Ascending xs

abbrev pub Distinct : List ℕ → Type 0
Distinct [] = Unit
Distinct (x ∷ xs) = (contains xs x ≡ false) × Distinct xs

pub All-contains : (P : ℕ → Type 0) (xs : List ℕ) (a : ℕ) → All P xs → contains xs a ≡ true → P a
unfolding contains
All-contains P [] a h c = cc
All-contains P (x ∷ xs) a h c = elim (Bool-cases (x == a)) [
  | inl e ↦ subst P ((==_iff x a).0 e) h.0
  | inr n ↦ All-contains P xs a h.1 (ground arith)
]

-- Insertion sort of numbers.
unfoldable pub insert_number : ℕ → List ℕ → List ℕ
insert_number x [] = x ∷ []
insert_number x (y ∷ ys) = if leb x y then x ∷ y ∷ ys else y ∷ insert_number x ys

unfoldable pub sorted_numbers : List ℕ → List ℕ
sorted_numbers [] = []
sorted_numbers (x ∷ xs) = insert_number x (sorted_numbers xs)

contains-insert_number :
    (x a : ℕ) (ys : List ℕ) → contains (insert_number x ys) a ≡ ((x == a) || contains ys a)
unfolding insert_number contains
contains-insert_number x a [] = refl
contains-insert_number x a (y ∷ ys) = ground (arith, contains-insert_number x a ys)

pub contains-sorted_numbers : (xs : List ℕ) (a : ℕ) → contains (sorted_numbers xs) a ≡ contains xs a
unfolding sorted_numbers contains
contains-sorted_numbers [] a = refl
contains-sorted_numbers (x ∷ xs) a =
    ground (arith, contains-insert_number x a (sorted_numbers xs), contains-sorted_numbers xs a)

insert_number-All :
    (P : ℕ → Type 0) (x : ℕ) (ys : List ℕ) → P x → All P ys → All P (insert_number x ys)
unfolding insert_number
insert_number-All P x [] p h = (p, tt)
insert_number-All P x (y ∷ ys) p h = elim (Bool-cases (leb x y)) [
  | inl e ↦ rw e (p, h)
  | inr n ↦ rw n (h.0, insert_number-All P x ys p h.1)
]

pub sorted_numbers-All : (P : ℕ → Type 0) (xs : List ℕ) → All P xs → All P (sorted_numbers xs)
unfolding sorted_numbers
sorted_numbers-All P [] h = tt
sorted_numbers-All P (x ∷ xs) h =
    insert_number-All P x (sorted_numbers xs) h.0 (sorted_numbers-All P xs h.1)

All-lt_trans : (x y : ℕ) (ys : List ℕ) → x < y → All (λ z. y < z) ys → All (λ z. x < z) ys
All-lt_trans x y [] h k = tt
All-lt_trans x y (z ∷ zs) h k = (omega arith, All-lt_trans x y zs h k.1)

insert_number-Ascending :
    (x : ℕ) (ys : List ℕ) → contains ys x ≡ false → Ascending ys → Ascending (insert_number x ys)
unfolding insert_number contains
insert_number-Ascending x [] n h = (tt, tt)
insert_number-Ascending x (y ∷ ys) n h = elim (Bool-cases (leb x y)) [
  | inl e ↦ let lt : x < y = ground arith in rw e ((lt, All-lt_trans x y ys lt h.0), h)
  | inr g ↦ rw g (
    insert_number-All (λ z. y < z) x ys (ground arith) h.0,
    insert_number-Ascending x ys (ground arith) h.1,
  )
]

pub sorted_numbers-Ascending : (xs : List ℕ) → Distinct xs → Ascending (sorted_numbers xs)
unfolding sorted_numbers
sorted_numbers-Ascending [] d = tt
sorted_numbers-Ascending (x ∷ xs) d =
    insert_number-Ascending x (sorted_numbers xs) (contains-sorted_numbers xs x ∙ d.0)
      (sorted_numbers-Ascending xs d.1)
