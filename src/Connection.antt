-- ===== src/Connection.antt =====
-- src/service/connection.rs: the services that a request of the client passes.
pub mod Settings
pub mod Stack
pub mod Sent
pub mod Usable
pub mod Reached
pub mod Deadline
