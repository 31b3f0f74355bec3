-- ===== src/Providers.antt =====
-- providers: the adapters of market data sources.
pub mod Coinbase
