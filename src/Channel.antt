-- ===== src/Channel.antt =====
-- src/channel/endpoint.rs and src/channel/mod.rs: channels and their builder.
pub mod Builder
pub mod Setters
pub mod Calls
pub mod Settings
pub mod Domain
pub mod Core
pub mod Connect
pub mod Refused
pub mod Verified
pub mod Balance
pub mod Room
pub mod Listed
