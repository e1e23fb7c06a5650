-- ===== src/Server.antt =====
-- The packages server, server/client, server/queue and server/topic.
pub mod Panic
pub mod Subscription
pub mod SubscriptionList
pub mod Storage
pub mod MemoryQueue
pub mod Queue
pub mod Topic
pub mod TxStore
pub mod ClientError
pub mod Version
pub mod HeartBeat
pub mod Conn
pub mod Processor
pub mod Setup
