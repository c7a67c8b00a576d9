-- ===== src/Net.antt =====
-- net/: sessions between peers, and the relaying of their messages.
pub mod Message
pub mod Frames
pub mod Session
pub mod Relay
pub mod Connections
mod Tests
