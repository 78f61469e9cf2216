-- ===== src/Poll/Service.antt =====
-- `class PollService` (services/poll.service.ts), one function for each transaction.
mod Tally
mod Voting
mod Acting
unfoldable pub use Tally.*
unfoldable pub use Voting.*
unfoldable pub use Acting.*
