-- ===== src/Rotation/Service.antt =====
-- `class MerryGoRoundService` (services/mgr.service.ts), one function for each transaction.
mod Swaps
mod Drawing
mod Payouts
mod Provider
unfoldable pub use Swaps.*
unfoldable pub use Drawing.*
unfoldable pub use Payouts.*
unfoldable pub use Provider.*
