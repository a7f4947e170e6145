-- ===== src/Examples.antt =====
-- The example programs of examples/src: a server that greets, and a client of it.
pub mod Number
pub mod Program
pub mod Tls
pub mod Hello
pub mod SetUp
pub mod Server
pub mod Ends
pub mod Client
pub mod Greeting
pub mod Verifies
pub mod Prints
