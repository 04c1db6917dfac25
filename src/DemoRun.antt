-- ===== src/DemoRun.antt =====
-- The demo as a whole: the request loop of RunClient against handleQUICStream at the other end of
-- every stream.
pub mod Wire
pub mod Exchanges
pub mod Session
mod Tests
