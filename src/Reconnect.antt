-- ===== src/Reconnect.antt =====
-- src/service/reconnect.rs: a service that makes its connection when it is polled, and makes it
-- again when it is lost.
pub mod Machine
pub mod Runs
pub mod Contract
pub mod Progress
pub mod Reachable
pub mod Recovers
pub mod Delivery
