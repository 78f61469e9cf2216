-- ===== src/Transaction.antt =====
-- Transactions and their retries (db/transaction.ts).
pub mod Work
pub mod Retries
pub mod Rollback
mod Tests
