-- ===== src/Qos/Hub/Index.antt =====
-- The two directions of the subscription index always agree, and no symbol keeps an empty set.
use smart_market_data_gatewa.Prelude.{
  ℕ, ◌≡◌, ◌≢◌, ◌≤◌, refl, true, false, Bool, not, ◌&&◌, ◌||◌, ◌==◌, if◌then◌else◌, Option, none,
  some, List, [], ◌∷◌, arith, contains, insert, discard, contains-insert, contains-discard,
  Bool-cases, inl, inr, length,
}
use smart_market_data_gatewa.Prelude.Dict.{Dict, get, put, remove, get-put, get-remove}
use smart_market_data_gatewa.Qos.Hub.{
  Session, union, minus, both, discard_all, members, index_all, shrunk, unindex, unindex_all,
}

pub contains-union :
    (xs ys : List ℕ) (a : ℕ) → contains (union xs ys) a ≡ (contains ys a || contains xs a)
unfolding union contains
contains-union xs [] a = refl
contains-union xs (y ∷ ys) a =
    ground (arith, contains-union (insert y xs) ys a, contains-insert y a xs)

pub contains-minus :
    (xs ys : List ℕ) (a : ℕ) → contains (minus xs ys) a ≡ (contains xs a && not (contains ys a))
unfolding minus contains
contains-minus [] ys a = refl
contains-minus (x ∷ xs) ys a = ground (arith, contains-minus xs ys a)

pub contains-both :
    (xs ys : List ℕ) (a : ℕ) → contains (both xs ys) a ≡ (contains xs a && contains ys a)
unfolding both contains
contains-both [] ys a = refl
contains-both (x ∷ xs) ys a = ground (arith, contains-both xs ys a)

pub contains-discard_all :
    (xs ys : List ℕ) (a : ℕ)
    → contains (discard_all xs ys) a ≡ (contains xs a && not (contains ys a))
unfolding discard_all contains
contains-discard_all xs [] a = ground arith
contains-discard_all xs (y ∷ ys) a =
    ground (arith, contains-discard_all (discard y xs) ys a, contains-discard y a xs)

-- Whether the index lists a connection under a symbol.
abbrev pub listed : Dict (List ℕ) → ℕ → ℕ → Bool
listed m s cid = contains (members (get m s)) cid

-- Whether a connection's session is subscribed to a symbol.
abbrev pub wants : Option Session → ℕ → Bool
wants none s = false
wants (some session) s = contains session.subscriptions s

pub listed-index_all :
    (cid : ℕ) (m : Dict (List ℕ)) (ss : List ℕ) (s c : ℕ)
    → listed (index_all cid m ss) s c ≡ ((contains ss s && (cid == c)) || listed m s c)
unfolding index_all contains
listed-index_all cid m [] s c = refl
listed-index_all cid m (x ∷ ss) s c = ground (
  arith,
  listed-index_all cid (put m x (insert cid (members (get m x)))) ss s c,
  get-put m x s (insert cid (members (get m x))),
  contains-insert cid c (members (get m x)),
)

listed-unindex :
    (cid : ℕ) (m : Dict (List ℕ)) (x : ℕ) (o : Option (List ℕ)) (s c : ℕ)
    → get m x ≡ o
    → listed (unindex cid m x o) s c ≡ (if x == s && cid == c then false else listed m s c)
unfolding contains
listed-unindex cid m x none s c e = ground arith
listed-unindex cid m x (some cids) s c e = removal (discard cid cids) refl
  where
    removal :
        (left : List ℕ)
        → discard cid cids ≡ left
        → listed (shrunk m x left) s c ≡ (if x == s && cid == c then false else listed m s c)
    removal [] p = ground (arith, get-remove m x s, contains-discard cid c cids)
    removal (l ∷ left) p = ground (arith, get-put m x s (l ∷ left), contains-discard cid c cids)

pub listed-unindex_all :
    (cid : ℕ) (m : Dict (List ℕ)) (ss : List ℕ) (s c : ℕ)
    → listed (unindex_all cid m ss) s c
      ≡ (if contains ss s && cid == c then false else listed m s c)
unfolding unindex_all contains
listed-unindex_all cid m [] s c = refl
listed-unindex_all cid m (x ∷ ss) s c = ground (
  arith,
  listed-unindex_all cid (unindex cid m x (get m x)) ss s c,
  listed-unindex cid m x (get m x) s c refl,
)

-- No symbol has an empty set.
abbrev pub IsLean : Dict (List ℕ) → Type 0
IsLean m = (s : ℕ) → get m s ≢ some []

insert_nonempty : (a : ℕ) (xs : List ℕ) → insert a xs ≢ []
unfolding insert contains
insert_nonempty a [] h = cc
insert_nonempty a (x ∷ xs) h = ground arith

put-IsLean :
    (m : Dict (List ℕ)) (s : ℕ) (cids : List ℕ) → cids ≢ [] → IsLean m → IsLean (put m s cids)
put-IsLean m s cids n l t h = ground (arith, get-put m s t cids, l t)

remove-IsLean : (m : Dict (List ℕ)) (s : ℕ) → IsLean m → IsLean (remove m s)
remove-IsLean m s l t h = ground (arith, get-remove m s t, l t)

pub index_all-IsLean :
    (cid : ℕ) (m : Dict (List ℕ)) (ss : List ℕ) → IsLean m → IsLean (index_all cid m ss)
unfolding index_all
index_all-IsLean cid m [] l = l
index_all-IsLean cid m (s ∷ ss) l =
    index_all-IsLean cid (put m s (insert cid (members (get m s)))) ss
      (put-IsLean m s (insert cid (members (get m s))) (insert_nonempty cid (members (get m s))) l)

unindex-IsLean :
    (cid : ℕ) (m : Dict (List ℕ)) (s : ℕ) (o : Option (List ℕ))
    → IsLean m
    → IsLean (unindex cid m s o)
unindex-IsLean cid m s none l = l
unindex-IsLean cid m s (some cids) l = shrunk-IsLean (discard cid cids)
  where
    shrunk-IsLean : (left : List ℕ) → IsLean (shrunk m s left)
    shrunk-IsLean [] = remove-IsLean m s l
    shrunk-IsLean (c ∷ left) = put-IsLean m s (c ∷ left) (λ e. cc) l

pub unindex_all-IsLean :
    (cid : ℕ) (m : Dict (List ℕ)) (ss : List ℕ) → IsLean m → IsLean (unindex_all cid m ss)
unfolding unindex_all
unindex_all-IsLean cid m [] l = l
unindex_all-IsLean cid m (s ∷ ss) l =
    unindex_all-IsLean cid (unindex cid m s (get m s)) ss (unindex-IsLean cid m s (get m s) l)

-- What the set already holds adds nothing to a union.
union_fixed :
    (xs zs ys : List ℕ)
    → ((a : ℕ) → contains xs a ≡ true → contains zs a ≡ true)
    → union zs (minus ys xs) ≡ union zs ys
unfolding union minus
union_fixed xs zs [] h = refl
union_fixed xs zs (y ∷ ys) h = elim (Bool-cases (contains xs y)) [
  | inl old ↦ rw (old, kept (h y old)) (union_fixed xs zs ys h)
  | inr new ↦
      rw new
        (union_fixed xs (insert y zs) ys (λ a p. ground (arith, contains-insert y a zs, h a p)))
]
  where
    kept : contains zs y ≡ true → insert y zs ≡ zs
    kept p = unfold insert in rw p

pub union-minus : (xs ys : List ℕ) → union xs (minus ys xs) ≡ union xs ys
union-minus xs ys = union_fixed xs xs ys (λ a p. p)

length-discard : (a : ℕ) (xs : List ℕ) → length (discard a xs) ≤ length xs
unfolding discard
length-discard a [] = omega arith
length-discard a (x ∷ xs) = ground (arith, length-discard a xs)

pub length-discard_all : (xs ys : List ℕ) → length (discard_all xs ys) ≤ length xs
unfolding discard_all
length-discard_all xs [] = omega arith
length-discard_all xs (y ∷ ys) =
    omega (arith, length-discard_all (discard y xs) ys, length-discard y xs)
