-- ===== src/Templates.antt =====
-- Versioned template definitions and their selection (core/ir/template_versions.py).
pub mod Outcome
pub mod Version
pub mod Unique
pub mod Calendar
pub mod Written
pub mod Timestamp
pub mod Registry
pub mod Select
mod Tests
