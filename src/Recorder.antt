-- ===== src/Recorder.antt =====
-- recorder.py: the evidence ledger, its writer and its verifier.
pub mod Text
pub mod Files
pub mod Ledger
pub mod Writer
pub mod Tamper
pub mod Messages
pub mod Tests
