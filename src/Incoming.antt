-- ===== src/Incoming.antt =====
-- src/server/incoming.rs: the loop that accepts connections and shakes hands with them.
pub mod Loop
pub mod Weight
pub mod Steps
pub mod Conservation
pub mod Drain
pub mod Tcp
