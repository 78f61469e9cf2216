-- ===== src/Loan/Service.antt =====
-- `class LoanService` (services/loan.service.ts). Each operation is one SERIALIZABLE transaction:
-- a function of the tables, whose error rolls everything back.
mod Apply
mod Guarantees
mod Approval
mod Closing
mod Provider
mod Rules
unfoldable pub use Apply.*
unfoldable pub use Guarantees.*
unfoldable pub use Approval.*
unfoldable pub use Closing.*
unfoldable pub use Provider.*
unfoldable pub use Rules.*
