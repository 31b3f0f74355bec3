-- ===== src/Domain.antt =====
-- domain/models.py: quote events, their evidence semantics, and their validators.
pub mod Evidence
pub mod Quote
pub mod Tests
