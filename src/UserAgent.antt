-- ===== src/UserAgent.antt =====
-- src/service/user_agent.rs: the middleware that sets the `user-agent` header of each request.
pub mod Middleware
pub mod Header
pub mod Suite
