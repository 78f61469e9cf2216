-- ===== src/Loan.antt =====
-- The loan lifecycle: services/loan.service.ts.
pub mod Types
pub mod Queries
pub mod Service
pub mod Pricing
pub mod Transitions
pub mod Requests
pub mod Histories
pub mod Pledges
pub mod Approvals
pub mod Repayments
pub mod Payout
pub mod Results
mod Samples
mod Tests
mod ResultTests
