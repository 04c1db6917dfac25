-- ===== src/Server.antt =====
-- internal/quictransport/server.go.
pub mod Demo
pub mod Session
pub mod Forward
pub mod Connection
pub mod Accept
pub mod Listen
pub mod Run
pub mod Serve
