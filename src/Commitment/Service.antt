-- ===== src/Commitment/Service.antt =====
-- `class CommitmentService` (services/commitment.service.ts). An operation is a function of the
-- custody that its transaction locks; an error rolls it back.
mod Inputs
mod Hold
mod Transitions
mod Settlement
unfoldable pub use Inputs.*
unfoldable pub use Hold.*
unfoldable pub use Transitions.*
unfoldable pub use Settlement.*
