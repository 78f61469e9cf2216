-- ===== src/Ledger.antt =====
-- The ledger: shared/business-logic.ts, services/ledger.service.ts and
-- services/charge-ledger.service.ts, with the two triggers of
-- migrations/001_initial_schema.sql that guard its tables.
pub mod Types
pub mod Operations
pub mod Journals
pub mod Triggers
pub mod Posted
pub mod Reconciled
pub mod Calls
pub mod Replay
pub mod Guards
pub mod Charges
mod Tests
