-- ===== src/Validate.antt =====
-- The automatic validation of extracted items and tables (core/validate/automatic.py).
pub mod Categories
pub mod Records
pub mod Conditions
pub mod Decision
pub mod Item
pub mod Table
pub mod Verdict
pub mod Gate
pub mod Names
pub mod Override
pub mod TableGate
mod Tests
