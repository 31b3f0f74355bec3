-- ===== src/RateLimit.antt =====
-- rate_limit.py: `RedisTokenBucket` and its script, on the hash of one key. A token is sixty million
-- units, so that a refill of `requests_per_minute / 60` tokens a second is a whole number of units a
-- microsecond; the rounding of floating-point numbers is left out.
pub mod Bound
pub mod Tests
use smart_market_data_gatewa.Prelude.{
  ℕ, ◌+◌, ◌-◌, ◌*◌, ◌/◌, Bool, true, false, leb, ◌==◌, if◌then◌else◌, Option, none, some, min, max,
}

pub record Bucket : Type 0 where
  pub tokens : ℕ
  pub updated_at : ℕ

abbrev pub units : ℕ → ℕ
units n = n * 60000000

-- `burst_capacity or max(5, math.ceil(requests_per_minute / 6))`
abbrev pub capacity_of : Option ℕ → ℕ → ℕ
capacity_of none requests_per_minute = max 5 ((requests_per_minute + 5) / 6)
capacity_of (some burst) requests_per_minute =
    if burst == 0 then max 5 ((requests_per_minute + 5) / 6) else burst

abbrev pub refilled : ℕ → ℕ → ℕ → Option Bucket → ℕ
refilled capacity rate now none = units capacity
refilled capacity rate now (some b) = min (units capacity) (b.tokens + (now - b.updated_at) * rate)

-- The script: the bucket that it stores, and whether the cost was allowed.
unfoldable pub script : ℕ → ℕ → ℕ → ℕ → Option Bucket → Bucket × Bool
script capacity rate cost now state =
    let tokens = refilled capacity rate now state in
    if leb (units cost) tokens
    then (record { tokens = tokens - units cost; updated_at = now }, true)
    else (record { tokens = tokens; updated_at = now }, false)

-- `allow`, with the state of the key before and after.
unfoldable pub allow : ℕ → ℕ → Option ℕ → ℕ → Option Bucket → Option Bucket × Bool × ℕ
allow requests_per_minute cost burst now state =
    let r = script (capacity_of burst requests_per_minute) requests_per_minute cost now state in
    if leb requests_per_minute 0 then (state, false, 0) else (some r.0, r.1, r.0.tokens)
