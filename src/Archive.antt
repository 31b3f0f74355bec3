-- ===== src/Archive.antt =====
-- candle_archive.py: the archive of one-minute candles, and the history that is read from it.
pub mod Table
pub mod Replay
pub mod Hybrid
pub mod Tests
