-- ===== src/Prelude/Dict.antt =====
-- Python's `dict` with numbers for keys: an association list in the order of insertion.
use Prim.Native.Nat.{ℕ, ◌+◌, ◌≤◌}
use mathlib.Core.Path.{◌≡◌, refl, subst}
use mathlib.Core.Option.{Option, none, some}
use mathlib.Core.List.{List, [], ◌∷◌}
use mathlib.Core.Bool.{◌||◌, false}
use mathlib.Core.Logic.{inl, inr}
use native.Mathlib.Omega.{arith}
use smart_market_data_gatewa.Prelude.Tests.{◌==◌, if◌then◌else◌, is_some, Bool-cases, ==_iff}
use smart_market_data_gatewa.Prelude.Lists.{length, contains, All, Distinct}

abbrev pub Dict {ℓ} : Type ℓ → Type ℓ
Dict V = List (ℕ × V)

abbrev pub keys {ℓ} : {V : Type ℓ} → Dict V → List ℕ
keys [] = []
keys ((k, v) ∷ d) = k ∷ keys d

abbrev pub values {ℓ} : {V : Type ℓ} → Dict V → List V
values [] = []
values ((k, v) ∷ d) = v ∷ values d

module _ {ℓ} {V : Type ℓ} where
  -- d.get(k)
  unfoldable pub get : Dict V → ℕ → Option V
  get [] k = none
  get ((j, v) ∷ d) k = if j == k then some v else get d k

  -- d[k] = v: a key that is there keeps its place.
  unfoldable pub put : Dict V → ℕ → V → Dict V
  put [] k v = (k, v) ∷ []
  put ((j, w) ∷ d) k v = if j == k then (j, v) ∷ d else (j, w) ∷ put d k v

  -- d.pop(k, None)
  unfoldable pub remove : Dict V → ℕ → Dict V
  remove [] k = []
  remove ((j, v) ∷ d) k = let rest = remove d k in if j == k then rest else (j, v) ∷ rest

  pub get-put :
      (d : Dict V) (k j : ℕ) (v : V) → get (put d k v) j ≡ (if k == j then some v else get d j)
  unfolding get put
  get-put [] k j v = refl
  get-put ((i, w) ∷ d) k j v = ground (arith, get-put d k j v)

  pub get-remove : (d : Dict V) (k j : ℕ) → get (remove d k) j ≡ (if k == j then none else get d j)
  unfolding get remove
  get-remove [] k j = ground arith
  get-remove ((i, w) ∷ d) k j = ground (arith, get-remove d k j)

  pub length-put :
      (d : Dict V) (k : ℕ) (v : V)
      → length (put d k v) ≡ (if is_some (get d k) then length d else length d + 1)
  unfolding get put
  length-put [] k v = omega arith
  length-put ((i, w) ∷ d) k v = ground (arith, length-put d k v)

  pub length-remove-le : (d : Dict V) (k : ℕ) → length (remove d k) ≤ length d
  unfolding remove
  length-remove-le [] k = omega arith
  length-remove-le ((i, w) ∷ d) k = ground (arith, length-remove-le d k)

  pub length-remove-lt :
      (d : Dict V) (k : ℕ) {v : V} → get d k ≡ some v → length (remove d k) + 1 ≤ length d
  unfolding get remove
  length-remove-lt [] k h = ground arith
  length-remove-lt ((i, w) ∷ d) k {v} h =
      ground (arith, length-remove-le d k, length-remove-lt d k {v = v})

  pub keys-put-All :
      (P : ℕ → Type 0) (d : Dict V) (k : ℕ) (v : V)
      → P k
      → All P (keys d)
      → All P (keys (put d k v))
  unfolding put
  keys-put-All P [] k v p h = (p, tt)
  keys-put-All P ((j, w) ∷ d) k v p h = elim (Bool-cases (j == k)) [
    | inl e ↦ rw e h
    | inr n ↦ rw n (h.0, keys-put-All P d k v p h.1)
  ]

  pub contains-keys : (d : Dict V) (k : ℕ) → contains (keys d) k ≡ is_some (get d k)
  unfolding contains get
  contains-keys [] k = refl
  contains-keys ((j, v) ∷ d) k = ground (arith, contains-keys d k)

  contains-keys-put :
      (d : Dict V) (k j : ℕ) (v : V)
      → contains (keys (put d k v)) j ≡ ((k == j) || contains (keys d) j)
  unfolding contains put
  contains-keys-put [] k j v = refl
  contains-keys-put ((i, w) ∷ d) k j v = ground (arith, contains-keys-put d k j v)

  pub keys-put-Distinct :
      (d : Dict V) (k : ℕ) (v : V) → Distinct (keys d) → Distinct (keys (put d k v))
  unfolding put contains
  keys-put-Distinct [] k v h = (refl, tt)
  keys-put-Distinct ((i, w) ∷ d) k v h = elim (Bool-cases (i == k)) [
    | inl e ↦ rw e h
    | inr n ↦ rw n (ground (arith, contains-keys-put d k i v), keys-put-Distinct d k v h.1)
  ]

  -- Each entry of the second dict is what the first has at its key.
  abbrev pub Within : Dict V → Dict V → Type ℓ
  Within d [] = Unit
  Within d ((k, v) ∷ e) = (get d k ≡ some v) × Within d e

  Within-cons :
      (d e : Dict V) (k : ℕ) (v : V)
      → contains (keys e) k ≡ false
      → Within d e
      → Within ((k, v) ∷ d) e
  unfolding contains get
  Within-cons d [] k v n w = tt
  Within-cons d ((j, u) ∷ e) k v n w = (ground arith, Within-cons d e k v (ground arith) w.1)

  pub Within-refl : (d : Dict V) → Distinct (keys d) → Within d d
  unfolding get
  Within-refl [] h = tt
  Within-refl ((k, v) ∷ d) h = (ground arith, Within-cons d d k v h.0 (Within-refl d h.1))

  remove_missing : (d : Dict V) (k : ℕ) → contains (keys d) k ≡ false → remove d k ≡ d
  unfolding contains remove
  remove_missing [] k h = refl
  remove_missing ((j, v) ∷ d) k h = ground (arith, remove_missing d k)

  pub length-remove :
      (d : Dict V) (k : ℕ)
      → Distinct (keys d)
      → length d ≡ length (remove d k) + (if is_some (get d k) then 1 else 0)
  unfolding get remove
  length-remove [] k h = omega arith
  length-remove ((j, v) ∷ d) k h = elim (Bool-cases (j == k)) [
    | inl e ↦ ground (
      arith,
      remove_missing d k (subst (λ i. contains (keys d) i ≡ false) ((==_iff j k).0 e) h.0),
    )
    | inr n ↦ ground (arith, length-remove d k h.1)
  ]

  contains-keys-remove :
      (d : Dict V) (k j : ℕ) → contains (keys d) j ≡ false → contains (keys (remove d k)) j ≡ false
  unfolding contains remove
  contains-keys-remove [] k j h = refl
  contains-keys-remove ((i, v) ∷ d) k j h = ground (arith, contains-keys-remove d k j)

  pub keys-remove-Distinct : (d : Dict V) (k : ℕ) → Distinct (keys d) → Distinct (keys (remove d k))
  unfolding remove
  keys-remove-Distinct [] k h = tt
  keys-remove-Distinct ((i, v) ∷ d) k h = elim (Bool-cases (i == k)) [
    | inl e ↦ rw e (keys-remove-Distinct d k h.1)
    | inr n ↦ rw n (contains-keys-remove d k i h.0, keys-remove-Distinct d k h.1)
  ]
