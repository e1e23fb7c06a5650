-- ===== src/Exchange.antt =====
-- The two ends of a connection: the library's client against the server of the same repository.
pub mod Handshake
pub mod Acknowledge
