-- ===== src/RateLimit/Tests.antt =====
-- Three calls of a client that may make sixty a minute.
use smart_market_data_gatewa.Prelude.{◌+◌, ◌*◌, ◌≤◌, none, [], ◌∷◌, arith}
use smart_market_data_gatewa.RateLimit.{units, capacity_of}
use smart_market_data_gatewa.RateLimit.Bound.{Calls, granted, elapsed, granted-le-capacity}

abbrev calls : Calls
calls = (0, 9) ∷ (500000, 2) ∷ (1000000, 1) ∷ []

granted_example :
    units (granted 60 none none 0 calls) ≤ units (capacity_of none 60) + elapsed calls * 60
granted_example = granted-le-capacity 60 none 0 calls (omega arith)
