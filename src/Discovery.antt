-- ===== src/Discovery.antt =====
-- src/service/discover.rs, and the lists of builders of src/channel/mod.rs.
pub mod Changes
pub mod Balanced
pub mod Yielded
pub mod Followed
