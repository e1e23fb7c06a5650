-- ===== src/Tests.antt =====
-- Tests, and an instance of each theorem at data that a program would meet.
mod Data
mod Wire
mod Queues
mod Connection
mod Delivery
mod Client
mod Subscriber
mod Exchange
pub mod Reading
