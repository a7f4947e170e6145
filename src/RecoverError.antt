-- ===== src/RecoverError.antt =====
-- src/server/recover_error.rs: the middleware that turns errors of a service into gRPC responses.
pub mod Reason
pub mod Status
pub mod Body
pub mod Middleware
pub mod Recovery
pub mod Reads
