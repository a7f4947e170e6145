-- ===== src/Router.antt =====
-- src/service/router.rs, and the `Router` of src/server/mod.rs.
pub mod Routes
pub mod Unmatched
pub mod Respond
