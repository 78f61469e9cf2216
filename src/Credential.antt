-- ===== src/Credential.antt =====
-- Accounts: passwords, one-time codes and the tokens of a session (services/credential.service.ts,
-- services/otp.service.ts, services/token.service.ts, middlewares/auth.middleware.ts).
pub mod Types
pub mod Service
pub mod Attempts
pub mod Recovery
pub mod Rotation
mod Tests
