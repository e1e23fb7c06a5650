-- ===== src/Client.antt =====
-- The client library at the root of the repository.
pub mod Error
pub mod AckMode
pub mod Id
pub mod Message
pub mod Frames
pub mod Options
pub mod Connect
pub mod ReadLoop
pub mod Loop
pub mod Calls
pub mod Subscription
pub mod Transaction
pub mod Whole
