-- ===== src/Sync.antt =====
-- application/market_sync.py and application/historical_sync.py: filling the candle store.
mod Ranges
mod Pages
pub mod Service
pub mod Checked
pub mod Progress
pub mod Gaps
pub mod Historical
pub mod Continuity
pub mod Tests
pub use Ranges.*
pub use Pages.*
