-- ===== src/RateLimit/Bound.antt =====
-- What a token bucket can allow over a time.
use smart_market_data_gatewa.Prelude.{
  ℕ, ◌+◌, ◌-◌, ◌*◌, ◌≤◌, ◌≡◌, false, leb, if◌then◌else◌, Option, none, some, List, [], ◌∷◌, arith,
  min, refl, ap, Bool-cases, inl, inr,
}
use native.Mathlib.Nat.{add-mul}
use smart_market_data_gatewa.RateLimit.{Bucket, units, capacity_of, refilled, script, allow}

-- Calls, each with the time since the call before and its cost.
abbrev pub Calls : Type 0
Calls = List (ℕ × ℕ)

-- The costs that a sequence of calls is allowed.
unfoldable pub granted : ℕ → Option ℕ → Option Bucket → ℕ → Calls → ℕ
granted rpm burst state now [] = 0
granted rpm burst state now ((wait, cost) ∷ calls) =
    let r = allow rpm cost burst (now + wait) state in
    (if r.1 then cost else 0) + granted rpm burst r.0 (now + wait) calls

abbrev pub elapsed : Calls → ℕ
elapsed [] = 0
elapsed ((wait, cost) ∷ calls) = wait + elapsed calls

script_lem :
    (capacity rate cost now wait : ℕ) (b : Bucket)
    → b.updated_at ≡ now
    → (((script capacity rate cost (now + wait) (some b)).0.tokens
          + units (if (script capacity rate cost (now + wait) (some b)).1 then cost else 0))
        ≤ b.tokens + wait * rate)
      × ((script capacity rate cost (now + wait) (some b)).0.updated_at ≡ now + wait)
unfolding script
script_lem capacity rate cost now wait b e =
    let q : now + wait - b.updated_at ≡ wait = omega (arith, e) in
    let z : (now + wait - b.updated_at) * rate ≡ wait * rate = ap (λ x. x * rate) q in
    elim (Bool-cases (leb (units cost) (refilled capacity rate (now + wait) (some b)))) [
      | inl paid ↦ (ground (arith, paid, z), rw paid refl)
      | inr short ↦ (ground (arith, short, z), rw short refl)
    ]

allow_lem :
    (rpm cost now wait : ℕ) (burst : Option ℕ) (b : Bucket)
    → b.updated_at ≡ now
    → 1 ≤ rpm
    → (c : Bucket) × ((allow rpm cost burst (now + wait) (some b)).0 ≡ some c)
      × (c.updated_at ≡ now + wait)
      × (c.tokens + units (if (allow rpm cost burst (now + wait) (some b)).1 then cost else 0)
          ≤ b.tokens + wait * rpm)
unfolding allow
allow_lem rpm cost now wait burst b e pos =
    let s = script_lem (capacity_of burst rpm) rpm cost now wait b e in
    let r = script (capacity_of burst rpm) rpm cost (now + wait) (some b) in
    let n : leb rpm 0 ≡ false = ground arith in (r.0, rw n refl, s.1, rw n s.0)

-- From a bucket that was just updated.
granted_lem :
    (rpm : ℕ) (burst : Option ℕ) (b : Bucket) (now : ℕ) (calls : Calls)
    → b.updated_at ≡ now
    → 1 ≤ rpm
    → units (granted rpm burst (some b) now calls) ≤ b.tokens + elapsed calls * rpm
unfolding granted
granted_lem rpm burst b now [] e pos = omega arith
granted_lem rpm burst b now ((wait, cost) ∷ calls) e pos =
    let (c, p, u, t) = allow_lem rpm cost now wait burst b e pos in
    let rest = granted_lem rpm burst c (now + wait) calls u pos in
    rw p (omega (arith, t, rest, add-mul wait (elapsed calls) rpm))

abbrev full : ℕ → Option ℕ → ℕ → Bucket
full rpm burst t = record { tokens = units (capacity_of burst rpm); updated_at = t }

full_min : (a b : ℕ) → min a (a + b) ≡ a
full_min a b = omega arith

-- A new bucket is a full one.
allow_new :
    (rpm cost : ℕ) (burst : Option ℕ) (t u : ℕ)
    → 1 ≤ rpm
    → allow rpm cost burst t none ≡ allow rpm cost burst t (some (full rpm burst u))
unfolding allow script
allow_new rpm cost burst t u pos =
    let n : leb rpm 0 ≡ false = ground arith in
    rw (n, full_min (units (capacity_of burst rpm)) ((t - u) * rpm)) refl

-- A client whose bucket is new is never allowed more than the capacity of the bucket and what is
-- refilled in the time that its calls take, at a positive rate and with a clock that does not go
-- back.
pub granted-le-capacity :
    (rpm : ℕ) (burst : Option ℕ) (now : ℕ) (calls : Calls)
    → 1 ≤ rpm
    → units (granted rpm burst none now calls) ≤ units (capacity_of burst rpm) + elapsed calls * rpm
unfolding granted
granted-le-capacity rpm burst now [] pos = omega arith
granted-le-capacity rpm burst now ((wait, cost) ∷ calls) pos =
    rw (allow_new rpm cost burst (now + wait) now pos)
      (granted_lem rpm burst (full rpm burst now) now ((wait, cost) ∷ calls) refl pos)
