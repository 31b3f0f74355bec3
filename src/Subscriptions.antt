-- ===== src/Subscriptions.antt =====
-- subscriptions.py: `SubscriptionRegistry`, over the Redis commands that it and its scripts call.
pub mod Server
pub mod Keys
pub mod Registry
pub mod Collected
pub mod Memory
pub mod Tests
