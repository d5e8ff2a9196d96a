-- ===== src/Audit.antt =====
-- The contracts of audit events (services/api/persistence_contracts.py).
pub mod Contracts
pub mod Aliases
mod Tests
