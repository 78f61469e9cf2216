-- ===== src/Commitment.antt =====
-- The commitment deposit of a membership: services/commitment.service.ts, with the trigger of
-- migrations/001_initial_schema.sql on its table.
pub mod Types
pub mod Service
pub mod Trigger
pub mod Requests
pub mod Escrow
pub mod Lifecycle
pub mod Histories
pub mod Replays
mod Tests
