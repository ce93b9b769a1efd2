-- ===== src/Indicators.antt =====
-- indicators/: the plugins that the graph runs.
pub mod Base
pub mod Averages
pub mod Loop
pub mod Lookahead
pub mod Defined
pub mod Risk
pub mod Directional
pub mod Smc
pub mod Ict
mod Tests
