-- ===== src/Dcnet.antt =====
-- dcnet/: the anonymous broadcast of one message by XOR shares, and the groups that run it.
pub mod Xor
pub mod Share
pub mod Frame
pub mod Collector
pub mod Broadcast
pub mod Tracker
pub mod Network
pub mod Messages
pub mod Driver
pub mod Engine
pub mod Shuffle
pub mod Group
pub mod Reputation
pub mod Bridge
mod Tests
