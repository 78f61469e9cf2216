-- ===== src/Rotation.antt =====
-- The merry-go-round: members take turns at a payout of the chama (services/mgr.service.ts).
pub mod Types
pub mod Service
pub mod Statuses
pub mod Swapping
pub mod Drawing
pub mod Passing
pub mod Requesting
pub mod Confirming
pub mod Results
mod Tests
mod DrawingTests
