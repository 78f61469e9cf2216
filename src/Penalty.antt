-- ===== src/Penalty.antt =====
-- Late contributions: services/financial-math.ts and jobs/penalties.ts.
pub mod Fees
pub mod FeeBounds
pub mod Types
pub mod Queries
pub mod Assessment
pub mod Effects
mod Tests
