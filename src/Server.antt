-- ===== src/Server.antt =====
-- src/server/mod.rs: the server and its builder.
pub mod Builder
pub mod Setters
pub mod Settings
pub mod Info
pub mod Make
pub mod Made
pub mod Peer
pub mod Told
pub mod Serve
pub mod Bound
pub mod Deadline
pub mod Configured
pub mod Outcome
pub mod Across
pub mod Replied
pub mod Answered
pub mod Unknown
pub mod Requests
