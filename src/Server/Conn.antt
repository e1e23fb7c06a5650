-- ===== src/Server/Conn.antt =====
-- server/client/conn.go: one connection of a client.
pub mod State
pub mod Send
pub mod Connect
pub mod Transact
pub mod Subscribe
pub mod Ack
pub mod Dispatch
pub mod ReadLoop
pub mod Loop
pub mod Handshake
pub mod Keeps
pub mod MsgIds
pub mod Transactions
pub mod Whole
