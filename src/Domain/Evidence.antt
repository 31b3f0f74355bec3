-- ===== src/Domain/Evidence.antt =====
-- domain/models.py: the enumerations, `VolumeSemantics` and `DepthSemantics`.
-- A decimal is a number of some fixed unit, and a currency code a number; an instant is a number
-- of microseconds from the epoch, beside whether the `datetime` that gave it had a time zone.
use smart_market_data_gatewa.Prelude.{
  ℕ, ◌≡◌, ◌↔◌, ◌⊎◌, Bool, true, false, ◌&&◌, not, Option, arith, is_some,
}
use smart_market_data_gatewa.Prelude.Outcome.{Outcome, ok, raised, value_error, refuse_if, ◌>>◌}

pub data ServiceTier : Type 0 where
  basic pro premium : ServiceTier

pub data EvidenceOrigin : Type 0 where
  native provider_aggregated gateway_derived : EvidenceOrigin

pub data QuantityUnit : Type 0 where
  base_asset quote_notional contracts : QuantityUnit

pub data VolumeKind : Type 0 where
  interval cumulative : VolumeKind

-- A frozenset of `MarketEvidenceCapability`: one flag for each member.
pub record Capabilities : Type 0 where
  pub level1_quote : Bool
  pub volume : Bool
  pub aggressor_flow : Bool
  pub trade_count : Bool
  pub top_of_book_depth : Bool

pub record Datetime : Type 0 where
  pub micros : ℕ
  pub aware : Bool

unfoldable pub require_timezone : Datetime → Outcome Datetime
require_timezone value = do refuse_if (not value.aware) value_error; ok value

abbrev pub is_quote_notional : QuantityUnit → Bool
is_quote_notional base_asset = false
is_quote_notional quote_notional = true
is_quote_notional contracts = false

abbrev is_interval : VolumeKind → Bool
is_interval interval = true
is_interval cumulative = false

pub record VolumeSemantics : Type 0 where
  pub kind : VolumeKind
  pub unit : QuantityUnit
  pub aggregation_window_ms : Option ℕ
  pub currency : Option ℕ
  pub origin : EvidenceOrigin

pub record DepthSemantics : Type 0 where
  pub unit : QuantityUnit
  pub levels : ℕ
  pub currency : Option ℕ
  pub origin : EvidenceOrigin

-- The two currency tests that both validators make.
check_currency : QuantityUnit → Option ℕ → Outcome (Unit {0})
check_currency unit currency = do
  refuse_if (is_quote_notional unit && not (is_some currency)) value_error
  refuse_if (not (is_quote_notional unit) && is_some currency) value_error
  ok tt

unfoldable pub validate_volume : VolumeSemantics → Outcome VolumeSemantics
unfolding check_currency
validate_volume s = do
  refuse_if (is_interval s.kind && not (is_some s.aggregation_window_ms)) value_error
  refuse_if (not (is_interval s.kind) && is_some s.aggregation_window_ms) value_error
  check_currency s.unit s.currency
  ok s

unfoldable pub validate_depth : DepthSemantics → Outcome DepthSemantics
unfolding check_currency
validate_depth s = do check_currency s.unit s.currency; ok s

-- What the validators are to accept: a window exactly for interval volume, and a currency exactly
-- for quote-notional amounts.
pub record IsMeaningful (s : VolumeSemantics) : Type 0 where
  pub window : (s.kind ≡ interval) ↔ (is_some s.aggregation_window_ms ≡ true)
  pub priced : (s.unit ≡ quote_notional) ↔ (is_some s.currency ≡ true)

kind_iff : (k : VolumeKind) → (k ≡ interval) ↔ (is_interval k ≡ true)
kind_iff interval = ground arith
kind_iff cumulative = ground arith

unit_iff : (u : QuantityUnit) → (u ≡ quote_notional) ↔ (is_quote_notional u ≡ true)
unit_iff base_asset = ground arith
unit_iff quote_notional = ground arith
unit_iff contracts = ground arith

-- `VolumeSemantics` is accepted, unchanged, exactly when interval volume and only that has a
-- window and quote-notional volume and only that has a currency; else it is a ValueError.
pub validate_volume_iff :
    (s : VolumeSemantics)
    → (IsMeaningful s × (validate_volume s ≡ ok s))
      ⊎ (¬ IsMeaningful s × (validate_volume s ≡ raised value_error))
unfolding validate_volume
validate_volume_iff s = ground (arith, kind_iff s.kind, unit_iff s.unit)
