-- ===== src/Trust.antt =====
-- The trust scores of members (services/trust-score.service.ts).
pub mod Types
pub mod Score
mod Tests
