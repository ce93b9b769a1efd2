-- ===== src/Runtime.antt =====
-- application/runtime.py: one run of the engine, from the lock to the receipt.
pub mod Ports
pub mod Emission
pub mod Evaluation
pub mod Engine
pub mod Agreement
pub mod Warnings
mod Tests
