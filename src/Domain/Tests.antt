-- ===== src/Domain/Tests.antt =====
-- Events and units that are accepted or not.
use smart_market_data_gatewa.Prelude.{◌≡◌, ◌⊎◌}
use smart_market_data_gatewa.Prelude.Outcome.{ok, raised, value_error}
use smart_market_data_gatewa.Domain.Quote.{sample, validate_market}
use smart_market_data_gatewa.Domain.Quote.Consistency.{IsConsistent, validate_market-decides}

market_example :
    (IsConsistent sample × (validate_market sample ≡ ok sample))
    ⊎ (¬ IsConsistent sample × (validate_market sample ≡ raised value_error))
market_example = validate_market-decides sample
