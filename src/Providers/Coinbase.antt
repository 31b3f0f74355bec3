-- ===== src/Providers/Coinbase.antt =====
-- providers/coinbase.py: the adapter of Coinbase's public market data: the values of its JSON
-- messages, their projection to quote events, and the session that reads them.
pub mod Json
pub mod Values
pub mod Names
pub mod Trades
pub mod Ticker
pub mod Event
pub mod Projector
pub mod State
pub mod Acknowledged
pub mod Session
pub mod Connection
pub mod Runs
pub mod Tests
