-- ===== src/Candles.antt =====
-- candles.py: one-minute candles, and their aggregation into series.
pub mod Time
pub mod Base
pub mod Soundness
pub mod Arrival
pub mod Aggregate
pub mod Tests
