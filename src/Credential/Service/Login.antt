-- ===== src/Credential/Service/Login.antt =====
-- `authenticatePassword` and `changePassword` (services/credential.service.ts).
use mduara_api.Prelude.{
  ℕ, ◌+◌, ◌*◌, Bool, false, not, ◌&&◌, ◌||◌, Option, none, some, List, [], ◌∷◌, map, find, length,
  all, ltb, leb, ◌==◌, if◌then◌else◌,
}
use mduara_api.Prelude.Text.{Text, text_eq, codes}
use mduara_api.Transaction.Work.{
  Work, ◌>>=◌, ◌>>◌, return, throw, select, write, throw_if, required,
}
use mduara_api.Mpesa.{is_digit}
use mduara_api.Commitment.Service.{lower_code}
use mduara_api.Credential.Types.{
  Tables, User, pin_lockout, password_changed, Failure, invalid_credentials, login_locked,
  current_password_incorrect, password_same, Settings, Crypto,
}
use mduara_api.Credential.Service.Tokens.{
  is_active_user, update_user, write_audit, invalidate_all_sessions,
}

-- `^\+254[17]\d{8}$`, from the digit after 254 on.
abbrev pub is_subscriber : Text → Bool
is_subscriber [] = false
is_subscriber (c ∷ rest) = (c == b'1' || c == b'7') && length rest == 8 && all is_digit rest

abbrev pub local_rest : Text → Text → Text
local_rest whole rest = if is_subscriber rest then b'0' ∷ rest else whole

abbrev pub without_prefix : Text → Text → Option Text
without_prefix [] rest = some rest
without_prefix (p ∷ prefix) [] = none
without_prefix (p ∷ prefix) (c ∷ rest) =
    let more = without_prefix prefix rest in if p == c then more else none

-- `localPhone`: the Kenyan local form of an international number.
unfoldable pub local_phone : Text → Text
local_phone identifier = elim (without_prefix (codes "+254") identifier) [
  | none ↦ identifier
  | some rest ↦ local_rest identifier rest
]

abbrev pub first_of : {A : Type 0} → Option A → Option A → Option A
first_of none second = second
first_of (some row) second = some row

-- The user with this phone number, or with its local form, or with this address.
unfoldable pub find_by_identifier : Text → List User → Option User
unfolding local_phone
find_by_identifier identifier users = first_of (find (λ u. text_eq u.phone identifier) users) (
    first_of (find (λ u. text_eq u.phone (local_phone identifier)) users)
      (find (λ u. text_eq (map lower_code u.email) (map lower_code identifier)) users))

abbrev pub is_locked : ℕ → Option ℕ → Bool
is_locked now none = false
is_locked now (some until) = ltb now until

module _ (crypto : Crypto) (settings : Settings) where
  abbrev pub should_lock : User → Bool
  should_lock user = leb settings.auth_max_failed_attempts (user.failed_login_attempts + 1)

  abbrev pub count_failure : ℕ → User → User → User
  count_failure now user u = record u {
    failed_login_attempts = user.failed_login_attempts + 1;
    login_locked_until =
        if should_lock user then some (now + settings.auth_lockout_minutes * 60_000) else none;
  }

  abbrev pub audit_lock : User → Work Tables Failure (Unit {0})
  audit_lock user = if should_lock user then write (write_audit pin_lockout user.id) else return tt

  abbrev pub count_if_active : ℕ → User → Work Tables Failure (Unit {0})
  count_if_active now user =
      if is_active_user user.status
      then (do write (update_user user.id (count_failure now user)); audit_lock user)
      else return tt

  abbrev pub signed_in : ℕ → User → User
  signed_in now u = record u {
    failed_login_attempts = 0;
    login_locked_until = none;
    last_login_at = some now;
  }

  abbrev pub check_password : ℕ → Text → User → Work Tables Failure User
  check_password now password user =
      if not (crypto.verify_secret password user.pin_hash) || not (is_active_user user.status)
      then (do count_if_active now user; throw invalid_credentials)
      else (do write (update_user user.id (signed_in now)); return user)

  -- The work of the transaction of `authenticatePassword`; `authenticatePin` calls it.
  unfoldable pub authenticate_password : ℕ → Text → Text → Work Tables Failure User
  unfolding find_by_identifier
  authenticate_password now identifier password = do
    found ← select (λ s. find_by_identifier identifier s.users)
    user ← required found invalid_credentials
    throw_if (is_locked now user.login_locked_until) login_locked
    check_password now password user

  abbrev pub with_password : ℕ → Text → User → User
  with_password now pin_hash u = record u {
    pin_hash = pin_hash;
    pin_changed_at = some now;
    failed_login_attempts = 0;
    login_locked_until = none;
  }

  abbrev pub may_change : Text → User → Bool
  may_change password user =
      is_active_user user.status && crypto.verify_secret password user.pin_hash

  -- `changePassword`; `salt` is what bcrypt draws. `changePin` calls it.
  unfoldable pub change_password : ℕ → ℕ → Text → Text → ℕ → Work Tables Failure (Unit {0})
  change_password now user_id current new salt = do
    throw_if (text_eq current new) password_same
    found ← select (λ s. find (λ u. u.id == user_id) s.users)
    user ← required found current_password_incorrect
    throw_if (not (may_change current user)) current_password_incorrect
    write (update_user user_id (with_password now (crypto.hash_secret salt new)))
    write (invalidate_all_sessions now user_id)
    write (write_audit password_changed user_id)
