-- ===== src/Connector.antt =====
-- src/service/connector.rs and src/tls.rs: how a connection to a server is opened.
pub mod Handshake
pub mod Negotiated
pub mod Io
pub mod Traffic
