-- ===== src/Credential/Service/Recover.antt =====
-- `resetPassword`, `resetPin` (services/credential.service.ts) and `verifyOtp`
-- (controllers/auth.controller.ts): what an account's owner does with a one-time code.
use mduara_api.Prelude.{
  ℕ, Bool, true, false, not, ◌&&◌, ◌||◌, Option, some, find, ◌==◌, if◌then◌else◌,
}
use mduara_api.Prelude.Text.{Text, text_eq}
use mduara_api.Prelude.Outcome.{Outcome, ok, err}
use mduara_api.Transaction.Work.{Work, ◌>>=◌, ◌>>◌, return, select, write, throw_if, required}
use mduara_api.Transaction.Retries.{transaction}
use mduara_api.Credential.Types.{
  Tables, User, UserStatus, pending, active, OtpPurpose, password_reset, pin_reset, registration,
  AuditAction, password_reset_done, pin_reset_done, Failure, unable_to_reset_password,
  unable_to_reset_pin, account_missing, account_not_activatable, otp_missing, otp_expired,
  otp_attempts_exceeded, otp_invalid, TokenPair, Settings, Crypto,
}
use mduara_api.Credential.Service.Tokens.{
  is_active_user, update_user, write_audit, invalidate_all_sessions, issue_token_pair,
}
use mduara_api.Credential.Service.Codes.{verify_otp}
use mduara_api.Credential.Service.Login.{with_password}

abbrev pub find_user_with_phone : ℕ → Text → Tables → Option User
find_user_with_phone user_id phone s = find (λ u. u.id == user_id && text_eq u.phone phone) s.users

abbrev pub is_pending_user : UserStatus → Bool
is_pending_user pending = true
is_pending_user _ = false

-- The failures that are an `UnauthorizedError` here.
abbrev pub is_unauthorized : Failure → Bool
is_unauthorized otp_missing = true
is_unauthorized otp_expired = true
is_unauthorized otp_attempts_exceeded = true
is_unauthorized otp_invalid = true
is_unauthorized unable_to_reset_password = true
is_unauthorized unable_to_reset_pin = true
is_unauthorized _ = false

-- The `catch` of a reset: all of them look the same to the caller.
abbrev pub collapse :
    {A : Type 0} → Failure → Outcome Failure A × Tables → Outcome Failure A × Tables
collapse unable (ok result, s) = (ok result, s)
collapse unable (err failure, s) = (err (if is_unauthorized failure then unable else failure), s)

module _ (crypto : Crypto) (settings : Settings) where
  -- The transaction that both resets make.
  unfoldable pub reset_within :
      OtpPurpose → Failure → AuditAction → ℕ → Text → Text → Text → Work Tables Failure (Unit {0})
  unfolding verify_otp
  reset_within purpose unable action now phone code pin_hash = do
    user_id ← verify_otp crypto settings now phone code purpose
    found ← select (find_user_with_phone user_id phone)
    user ← required found unable
    throw_if (not (is_active_user user.status)) unable
    write (update_user user_id (with_password crypto settings now pin_hash))
    write (invalidate_all_sessions now user_id)
    write (write_audit action user_id)

  unfoldable pub reset_password : ℕ → Text → Text → Text → ℕ → Work Tables Failure (Unit {0})
  unfolding transaction reset_within
  reset_password now phone code new salt s = collapse unable_to_reset_password (
      transaction
        (reset_within password_reset unable_to_reset_password password_reset_done now phone code
          (crypto.hash_secret salt new))
        s)

  unfoldable pub reset_pin : ℕ → Text → Text → Text → ℕ → Work Tables Failure (Unit {0})
  unfolding transaction reset_within
  reset_pin now phone code new salt s = collapse unable_to_reset_pin (
      transaction
        (reset_within pin_reset unable_to_reset_pin pin_reset_done now phone code
          (crypto.hash_secret salt new))
        s)

  abbrev pub activated : ℕ → User → User
  activated now u = record u { status = active; last_login_at = some now }

  abbrev pub activate : ℕ → User → Work Tables Failure (Unit {0})
  activate now user =
      if is_pending_user user.status then write (update_user user.id (activated now)) else return tt

  -- The transaction of the handler `verifyOtp`: the account's owner enters the code of its
  -- registration.
  unfoldable pub verify_registration : ℕ → Text → Text → Work Tables Failure (ℕ × TokenPair)
  unfolding verify_otp
  verify_registration now phone code = do
    user_id ← verify_otp crypto settings now phone code registration
    found ← select (find_user_with_phone user_id phone)
    user ← required found account_missing
    throw_if (not (is_pending_user user.status || is_active_user user.status))
        account_not_activatable
    activate now user
    tokens ← issue_token_pair crypto settings now user.id
    return (user.id, tokens)
