-- ===== src/Payment.antt =====
-- M-Pesa payments of contributions (services/payment.service.ts).
pub mod Types
pub mod Values
pub mod Service
pub mod Effects
pub mod Kept
pub mod Confirming
mod Tests
