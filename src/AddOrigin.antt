-- ===== src/AddOrigin.antt =====
-- src/service/add_origin.rs: the middleware that gives each request the scheme and the authority
-- of the channel's origin.
pub mod Middleware
pub mod Origin
