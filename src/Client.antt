-- ===== src/Client.antt =====
-- internal/quictransport/client.go.
pub mod Validate
pub mod Path
pub mod PathSet
pub mod Backoff
pub mod Send
pub mod Receive
pub mod Demo
pub mod Dial
pub mod Pump
pub mod Reconnect
pub mod Run
pub mod TunRun
