-- ===== src/Reconciliation.antt =====
-- The reconciliation of a provider's records with the ledger: services/ledger.service.ts.
pub mod Window
pub mod Clean
pub mod Stored
pub mod Refining
mod Tests
