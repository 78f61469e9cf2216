-- ===== src/Poll.antt =====
-- The polls of a chama (services/poll.service.ts).
pub mod Double
pub mod Types
pub mod Service
pub mod Effects
pub mod Fairness
pub mod Closing
mod Tests
