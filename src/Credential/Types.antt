-- ===== src/Credential/Types.antt =====
-- The tables that the services of accounts read and write, what they take from libraries, and
-- their settings (config/env.ts).
use mduara_api.Prelude.{ℕ, ◌≡◌, Bool, true, false, Option, List}
use mduara_api.Prelude.Text.{Text}
use mduara_api.Roles.{Role}

pub data UserStatus : Type 0 where
  pending active suspended deleted : UserStatus

pub data OtpPurpose : Type 0 where
  registration password_reset pin_reset : OtpPurpose

abbrev pub purpose_eq : OtpPurpose → OtpPurpose → Bool
purpose_eq registration registration = true
purpose_eq password_reset password_reset = true
purpose_eq pin_reset pin_reset = true
purpose_eq _ _ = false

pub record User : Type 0 where
  pub id : ℕ
  pub phone : Text
  pub email : Text
  pub pin_hash : Text
  pub status : UserStatus
  pub is_platform_admin : Bool
  pub failed_login_attempts : ℕ
  pub login_locked_until : Option ℕ
  pub session_version : ℕ
  pub last_login_at : Option ℕ
  pub pin_changed_at : Option ℕ

pub record OtpCode : Type 0 where
  pub id : ℕ
  pub user_id : ℕ
  pub phone : Text
  pub code_hash : Text
  pub purpose : OtpPurpose
  pub expires_at : ℕ
  pub created_at : ℕ
  pub attempt_count : ℕ
  pub consumed_at : Option ℕ

-- A row of otp_request_events.
pub record OtpRequest : Type 0 where
  pub phone : Text
  pub purpose : OtpPurpose
  pub created_at : ℕ

pub record RefreshToken : Type 0 where
  pub id : ℕ
  pub user_id : ℕ
  pub token_hash : Text
  pub expires_at : ℕ
  pub revoked_at : Option ℕ

pub record Membership : Type 0 where
  pub id : ℕ
  pub chama_id : ℕ
  pub user_id : ℕ
  pub role : Role
  pub is_active : Bool

pub data AuditAction : Type 0 where
  pin_lockout password_changed password_reset_done pin_reset_done : AuditAction
  refresh_token_mismatch refresh_token_reuse : AuditAction

pub record Audit : Type 0 where
  pub action : AuditAction
  pub actor_id : ℕ

-- `memberships` is in the order of `joined_at DESC, id ASC`.
pub record Tables : Type 0 where
  pub users : List User
  pub otp_codes : List OtpCode
  pub otp_requests : List OtpRequest
  pub refresh_tokens : List RefreshToken
  pub memberships : List Membership
  pub audits : List Audit
  pub next_id : ℕ

pub data Failure : Type 0 where
  invalid_credentials login_locked current_password_incorrect password_same : Failure
  otp_missing otp_expired otp_attempts_exceeded otp_invalid : Failure
  otp_resend_cooldown otp_rate_limited otp_not_delivered : Failure
  unable_to_reset_password unable_to_reset_pin : Failure
  account_missing account_not_activatable account_not_active : Failure
  token_invalid token_unrecognized token_reused token_mismatch token_expired : Failure
  bearer_malformed bearer_missing session_invalid : Failure

-- The claims of an access token; `type` is 'access'.
pub record AccessPayload : Type 0 where
  pub sub : ℕ
  pub phone : Text
  pub is_platform_admin : Bool
  pub session_version : ℕ
  pub memberships : List (ℕ × ℕ × Role)

-- The claims of a refresh token; `type` is 'refresh'.
pub record RefreshPayload : Type 0 where
  pub sub : ℕ
  pub jti : ℕ

pub record TokenPair : Type 0 where
  pub access_token : Text
  pub refresh_token : Text

-- `env`
pub record Settings : Type 0 where
  pub auth_max_failed_attempts : ℕ
  pub auth_lockout_minutes : ℕ
  pub otp_expires_minutes : ℕ
  pub otp_max_verify_attempts : ℕ
  pub otp_rate_limit_max : ℕ
  pub otp_rate_limit_window_minutes : ℕ
  pub otp_resend_cooldown_seconds : ℕ
  pub jwt_refresh_expires_in : Text

-- bcrypt, HMAC and JSON web tokens. bcrypt draws a salt, which is an argument here. A decoded token
-- is one whose signature, expiry and type have been checked; `verify_refresh true` does without
-- the expiry.
pub record Crypto : Type 0 where
  pub hash_secret : ℕ → Text → Text
  pub verify_secret : Text → Text → Bool
  pub hash_lookup_value : Text → Text
  pub sign_access : AccessPayload → Text
  pub verify_access : ℕ → Text → Option AccessPayload
  pub sign_refresh : ℕ → RefreshPayload → Text
  pub verify_refresh : Bool → ℕ → Text → Option RefreshPayload

-- What bcrypt documents: a password matches its hash, whatever the salt.
pub record IsSound (c : Crypto) : Type 0 where
  pub verify_hash :
      (salt : ℕ) (secret : Text) → c.verify_secret secret (c.hash_secret salt secret) ≡ true
