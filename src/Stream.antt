-- ===== src/Stream.antt =====
-- storage.py and pipeline.py: what the stream processor does with a quote, over a Redis server.
pub mod Redis
pub mod Cache
pub mod Sequence
pub mod Process
pub mod Tests
