-- ===== src/Dcnet/Broadcast.antt =====
-- The protocol of dcnet/round_network.rs from end to end: every member computes its share, the
-- collector takes the shares in any order, and the message comes out.
pub mod Sums
pub mod Masks
pub mod Submissions
pub mod Delivery
