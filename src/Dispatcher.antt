-- ===== src/Dispatcher.antt =====
-- control/dispatcher: the transactional outbox and its way to the Redis streams.
pub mod Streams
pub mod Enqueue
pub mod Redis
pub mod Publish
