-- ===== src/Credential/Service.antt =====
-- The operations on accounts, one function for each transaction.
mod Tokens
mod Codes
mod Login
mod Recover
mod Access
unfoldable pub use Tokens.*
unfoldable pub use Codes.*
unfoldable pub use Login.*
unfoldable pub use Recover.*
unfoldable pub use Access.*
