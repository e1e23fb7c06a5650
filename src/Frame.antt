-- ===== src/Frame.antt =====
-- The package frame: frames, headers, and their encoding on the wire.
pub mod Command
pub mod Key
pub mod Header
pub mod Base
pub mod Encode
pub mod Writer
pub mod Reader
pub mod HeaderLines
pub mod RoundTrip
pub mod Stream
pub mod HeartBeat
