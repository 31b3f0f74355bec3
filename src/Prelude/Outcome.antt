-- ===== src/Prelude/Outcome.antt =====
-- A call that returns, or that raises one of Python's exceptions.
use mathlib.Core.Path.{◌≡◌, refl, ap}
use mathlib.Core.Bool.{Bool, true, false}

pub data Error : Type 0 where
  value_error key_error runtime_error os_error arithmetic_error cancelled : Error

pub data Outcome {ℓ} (A : Type ℓ) : Type ℓ where
  ok : A → Outcome A
  raised : Error → Outcome A

infixl 5 ◌>>=◌ ◌>>◌
abbrev pub ◌>>=◌ {ℓ κ} : {A : Type ℓ} {B : Type κ} → Outcome A → (A → Outcome B) → Outcome B
ok a >>= f = f a
raised e >>= f = raised e

abbrev pub ◌>>◌ {ℓ} : {B : Type ℓ} → Outcome (Unit {0}) → Outcome B → Outcome B
m >> k = m >>= λ _. k

-- `if bad: raise e`
abbrev pub refuse_if : Bool → Error → Outcome (Unit {0})
refuse_if true e = raised e
refuse_if false e = ok tt

pub ok_inj : {A : Type 0} {a b : A} → ok a ≡ ok b → a ≡ b
ok_inj {A} {a} {b} e = ap from e
  where
    from : Outcome A → A
    from (ok x) = x
    from (raised x) = a

-- A step of a `do` block that returned.
pub bound :
    {A B : Type 0} (m : Outcome A) (k : A → Outcome B) (b : B)
    → (m >>= k) ≡ ok b
    → (a : A) × (m ≡ ok a) × (k a ≡ ok b)
bound (ok a) k b e = (a, refl, e)
bound (raised x) k b e = absurd cc

pub unit_bound :
    {B : Type 0} (m : Outcome (Unit {0})) (k : Outcome B) (b : B) → (m >> k) ≡ ok b → k ≡ ok b
unit_bound (ok u) k b e = e
unit_bound (raised x) k b e = absurd cc
