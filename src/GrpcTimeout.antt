-- ===== src/GrpcTimeout.antt =====
-- src/service/grpc_timeout.rs: the middleware that ends a request when its time is up.
pub mod Number
pub mod Parse
pub mod Grammar
pub mod Answer
pub mod Header
pub mod Suite
pub mod Fuzz
pub mod Middleware
pub mod Race
pub mod Deadline
pub mod Ends
pub mod Leaves
pub mod Timer
pub mod Print
pub mod Bounds
