-- ===== src/Domain/Quote/Consistency.antt =====
-- `QuoteEvent.validate_market` decides an independent description of a consistent event.
use smart_market_data_gatewa.Prelude.{
  ℕ, ◌+◌, ◌≤◌, ◌≡◌, ◌⊎◌, true, Option, none, some, arith, is_some,
}
use smart_market_data_gatewa.Prelude.Outcome.{Outcome, ok, raised, value_error}
use smart_market_data_gatewa.Domain.Evidence.{DepthSemantics}
use smart_market_data_gatewa.Domain.Quote.{
  QuoteEvent, validate_market, check_schema, check_volume, check_flow, check_trade_count,
  check_depth,
}

abbrev IsPresent {ℓ} : {A : Type ℓ} → Option A → Type 0
IsPresent o = is_some o ≡ true

-- Relations between optional numbers hold of whatever is missing.
abbrev Ordered : Option ℕ → Option ℕ → Type 0
Ordered (some a) (some b) = a ≤ b
Ordered (some a) none = Unit
Ordered none b = Unit

abbrev SumWithin : Option ℕ → Option ℕ → Option ℕ → Type 0
SumWithin (some a) (some b) (some t) = a + b ≤ t
SumWithin (some a) (some b) none = Unit
SumWithin (some a) none t = Unit
SumWithin none b t = Unit

abbrev OneLevel : Option DepthSemantics → Type 0
OneLevel none = ⊥
OneLevel (some s) = s.levels ≡ 1

pub record HasSchema (e : QuoteEvent) : Type 0 where
  pub spread : Ordered e.bid e.ask
  pub level1 : e.capabilities.level1_quote ≡ true
  pub volume_minor : IsPresent e.volume → 1 ≤ e.schema_minor
  pub buy_minor : IsPresent e.buy_volume → 1 ≤ e.schema_minor
  pub sell_minor : IsPresent e.sell_volume → 1 ≤ e.schema_minor
  pub count_minor : IsPresent e.trade_count → 1 ≤ e.schema_minor
  pub bid_depth_minor : IsPresent e.bid_depth → 1 ≤ e.schema_minor
  pub ask_depth_minor : IsPresent e.ask_depth → 1 ≤ e.schema_minor
  pub volume_semantics_minor : IsPresent e.volume_semantics → 1 ≤ e.schema_minor
  pub depth_semantics_minor : IsPresent e.depth_semantics → 1 ≤ e.schema_minor

pub record HasVolume (e : QuoteEvent) : Type 0 where
  pub volume_known : IsPresent e.volume → IsPresent e.volume_semantics
  pub buy_known : IsPresent e.buy_volume → IsPresent e.volume_semantics
  pub sell_known : IsPresent e.sell_volume → IsPresent e.volume_semantics
  pub count_known : IsPresent e.trade_count → IsPresent e.volume_semantics
  pub volume_declared : IsPresent e.volume → e.capabilities.volume ≡ true

pub record HasFlow (e : QuoteEvent) : Type 0 where
  pub paired : is_some e.buy_volume ≡ is_some e.sell_volume
  pub declared : IsPresent e.buy_volume → e.capabilities.aggressor_flow ≡ true
  pub within : SumWithin e.buy_volume e.sell_volume e.volume

abbrev HasTradeCount : QuoteEvent → Type 0
HasTradeCount e = IsPresent e.trade_count → e.capabilities.trade_count ≡ true

pub record HasDepth (e : QuoteEvent) : Type 0 where
  pub paired : is_some e.bid_depth ≡ is_some e.ask_depth
  pub one_level : IsPresent e.bid_depth → OneLevel e.depth_semantics
  pub declared : IsPresent e.bid_depth → e.capabilities.top_of_book_depth ≡ true

pub record IsConsistent (e : QuoteEvent) : Type 0 where
  pub schema : HasSchema e
  pub volume : HasVolume e
  pub flow : HasFlow e
  pub trade_count : HasTradeCount e
  pub depth : HasDepth e

-- `m` accepts exactly under `P`, and fails with a ValueError.
abbrev Decides : Type 0 → Outcome (Unit {0}) → Type 0
Decides P m = (P × (m ≡ ok tt)) ⊎ (¬ P × (m ≡ raised value_error))

check_schema-Decides : (e : QuoteEvent) → Decides (HasSchema e) (check_schema e)
unfolding check_schema
check_schema-Decides e = ground arith

check_volume-Decides : (e : QuoteEvent) → Decides (HasVolume e) (check_volume e)
unfolding check_volume
check_volume-Decides e = ground arith

check_flow-Decides : (e : QuoteEvent) → Decides (HasFlow e) (check_flow e)
unfolding check_flow
check_flow-Decides e = ground arith

check_trade_count-Decides : (e : QuoteEvent) → Decides (HasTradeCount e) (check_trade_count e)
unfolding check_trade_count
check_trade_count-Decides e = ground arith

check_depth-Decides : (e : QuoteEvent) → Decides (HasDepth e) (check_depth e)
unfolding check_depth
check_depth-Decides e = ground arith

-- An event is accepted, unchanged, exactly when it is consistent: ask not below bid, level-1
-- capability declared, rich evidence only from schema 1.1, units stated for volume and depth, both
-- sides of flow and depth or neither, classified volume within the total, one book level, and
-- each kind of evidence declared as a capability. Every other event is a ValueError.
pub validate_market-decides :
    (e : QuoteEvent)
    → (IsConsistent e × (validate_market e ≡ ok e))
      ⊎ (¬ IsConsistent e × (validate_market e ≡ raised value_error))
unfolding validate_market
validate_market-decides e = ground (
  arith,
  check_schema-Decides e,
  check_volume-Decides e,
  check_flow-Decides e,
  check_trade_count-Decides e,
  check_depth-Decides e,
)
