-- ===== src/Indicators/Smc.antt =====
-- indicators/smc.py: swings, equal highs and lows, and order blocks over closed candles.
pub mod Legs
pub mod Swing
pub mod SwingPlugin
pub mod Equal
pub mod EqualPlugin
pub mod Blocks
pub mod BlockPlugin
pub mod Extremes
pub mod Confirmed
pub mod Sources
pub mod Active
pub mod Causal
pub mod EqualLevels
mod Tests
