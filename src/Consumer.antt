-- ===== src/Consumer.antt =====
-- What a module's consumer keeps (cpp/logos_api_consumer.cpp): its subscriptions, and its handles of
-- remote objects.
pub mod Pending
pub mod Objects
pub mod Uses
pub mod Handles
