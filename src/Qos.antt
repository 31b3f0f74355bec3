-- ===== src/Qos.antt =====
-- qos.py: what each client is sent. `Buffer` is `LatestValueBuffer`; `Hub` is `ConnectionHub`.
pub mod Buffer
pub mod Hub
pub mod Tests
