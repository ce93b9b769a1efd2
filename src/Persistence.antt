-- ===== src/Persistence.antt =====
-- adapters/persistence/sqlite.py: the tables of the runs and their evidence, and of the candles.
pub mod Tables
pub mod Final
pub mod Candles
pub mod Complete
pub mod Stored
pub mod Statuses
mod Tests
