-- ===== src/Replay.antt =====
-- application/backtesting.py: `PointInTimeReplay`.
mod Ranges
mod Trace
pub mod Run
pub mod Prefixes
pub mod Turns
pub mod Tests
unfoldable pub use Ranges.*
unfoldable pub use Trace.*
