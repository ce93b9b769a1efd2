-- ===== src/Simulator.antt =====
-- application/execution_simulator.py: replayed READY decisions against one-minute candles.
mod Trade
pub mod Once
pub mod Total
pub mod Timing
pub mod Exits
mod Tests
mod Loop
pub use Trade.*
pub use Loop.*
