-- ===== src/Subscription.antt =====
-- The subscriptions of chamas: plans, limits and payments (services/subscription.service.ts).
pub mod Calendar
pub mod Types
pub mod Access
pub mod Quota
pub mod Billing
pub mod Limits
pub mod Slots
pub mod Renewal
pub mod Charging
pub mod Settling
mod Tests
