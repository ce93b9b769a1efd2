-- ===== src/Indicators/Ict.antt =====
-- indicators/ict.py: clustered liquidity, market structure and fair value gaps over closed candles.
pub mod Zigzag
pub mod Liquidity
pub mod LiquidityPlugin
pub mod Structure
pub mod StructurePlugin
pub mod Gaps
mod Runs
mod Pivots
mod Breaks
mod KnownGaps
pub mod OpenGaps
pub mod GapPlugin
mod Tests
