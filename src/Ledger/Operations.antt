-- ===== src/Ledger/Operations.antt =====
-- `class LedgerBusinessLogic` (shared/business-logic.ts). An operation runs in one transaction
-- under an advisory lock on its reference, so it is a function of the ledger that it begins at.
mod Posting
mod Recording
unfoldable pub use Posting.*
unfoldable pub use Recording.*
