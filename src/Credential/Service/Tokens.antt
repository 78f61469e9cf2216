-- ===== src/Credential/Service/Tokens.antt =====
-- `class TokenService` (services/token.service.ts).
use mduara_api.Prelude.{
  ℕ, ◌+◌, ◌-◌, ◌*◌, Bool, true, false, not, ◌&&◌, Option, none, some, List, [], ◌∷◌, ◌++◌, find,
  update_where, ltb, ◌==◌, if◌then◌else◌,
}
use mduara_api.Prelude.Text.{Text, text_eq}
use mduara_api.Prelude.Outcome.{Outcome, ok, err}
use mduara_api.Transaction.Work.{Work, ◌>>=◌, ◌>>◌, return, select, write, required}
use mduara_api.Roles.{Role}
use mduara_api.Mpesa.{is_digit}
use mduara_api.Credential.Types.{
  Tables, User, UserStatus, active, RefreshToken, Membership, AuditAction, refresh_token_mismatch,
  refresh_token_reuse, Failure, account_not_active, token_invalid, token_unrecognized, token_reused,
  token_mismatch, token_expired, AccessPayload, RefreshPayload, TokenPair, Settings, Crypto,
}

abbrev pub is_active_user : UserStatus → Bool
is_active_user active = true
is_active_user _ = false

abbrev pub has_time : Option ℕ → Bool
has_time none = false
has_time (some time) = true

abbrev pub update_user : ℕ → (User → User) → Tables → Tables
update_user id f s = record s { users = update_where (λ u. u.id == id) f s.users }

abbrev pub write_audit : AuditAction → ℕ → Tables → Tables
write_audit action actor_id s = record s {
  audits = s.audits ++ (record { action = action; actor_id = actor_id }) ∷ [];
}

abbrev pub revoke_at : ℕ → RefreshToken → RefreshToken
revoke_at now t = record t { revoked_at = some now }

abbrev pub revoke_all_refresh_tokens : ℕ → ℕ → Tables → Tables
revoke_all_refresh_tokens now user_id s = record s {
  refresh_tokens =
      update_where (λ t. t.user_id == user_id && not (has_time t.revoked_at)) (revoke_at now)
        s.refresh_tokens;
}

-- `invalidateAllSessions`
abbrev pub invalidate_all_sessions : ℕ → ℕ → Tables → Tables
invalidate_all_sessions now user_id s =
    revoke_all_refresh_tokens now user_id
      (update_user user_id (λ u. record u { session_version = u.session_version + 1 }) s)

abbrev pub revoke_token : ℕ → ℕ → Tables → Tables
revoke_token now id s = record s {
  refresh_tokens = update_where (λ t. t.id == id) (revoke_at now) s.refresh_tokens;
}

-- The rows of `row.role` outside the four roles do not occur: the column is an enum.
abbrev pub membership_claims : ℕ → List Membership → List (ℕ × ℕ × Role)
membership_claims user_id [] = []
membership_claims user_id (m ∷ others) =
    let rest = membership_claims user_id others in
    if m.user_id == user_id && m.is_active then (m.id, m.chama_id, m.role) ∷ rest else rest

abbrev pub access_payload : User → Tables → AccessPayload
access_payload user s = record {
  sub = user.id;
  phone = user.phone;
  is_platform_admin = user.is_platform_admin;
  session_version = user.session_version;
  memberships = membership_claims user.id s.memberships;
}

abbrev pub find_active_user : ℕ → Tables → Option User
find_active_user user_id s = elim (find (λ u. u.id == user_id) s.users) [
  | none ↦ none
  | some user ↦ if is_active_user user.status then some user else none
]

abbrev pub unit_ms : ℕ → Option ℕ
unit_ms c =
    if c == b's'
    then some 1000
    else if c == b'm'
    then some 60_000
    else if c == b'h'
    then some 3_600_000
    else if c == b'd'
    then some 86_400_000
    else none

abbrev pub times_unit : Option ℕ → Option ℕ → Text → Option ℕ
times_unit (some n) (some unit) [] = some (n * unit)
times_unit _ _ _ = none

abbrev pub value_or_zero : Option ℕ → ℕ
value_or_zero none = 0
value_or_zero (some n) = n

-- `^(\d+)([smhd])$`, after the digits that give `n`.
abbrev pub read_expiry : Option ℕ → Text → Option ℕ
read_expiry n [] = none
read_expiry n (c ∷ rest) =
    let more = read_expiry (some (value_or_zero n * 10 + (c - b'0'))) rest in
    if is_digit c then more else times_unit n (unit_ms c) rest

-- `parseExpiryToMs`
abbrev pub parse_expiry_to_ms : Text → ℕ
parse_expiry_to_ms expires_in = elim (read_expiry none expires_in) [
  | none ↦ 7 * 24 * 60 * 60 * 1000
  | some ms ↦ ms
]

-- `RotationOutcome`
pub data RotationOutcome : Type 0 where
  rotated : TokenPair → RotationOutcome
  unrecognized reused mismatch expired inactive : RotationOutcome

-- The row of a refresh token with the status of its user.
abbrev pub find_token : ℕ → Tables → Option (RefreshToken × UserStatus)
find_token jti s = elim (find (λ t. t.id == jti) s.refresh_tokens) [
  | none ↦ none
  | some row ↦ elim (find (λ u. u.id == row.user_id) s.users) [
    | none ↦ none
    | some user ↦ some (row, user.status)
  ]
]

abbrev pub pair_of : RotationOutcome → Outcome Failure TokenPair
pair_of (rotated pair) = ok pair
pair_of unrecognized = err token_unrecognized
pair_of reused = err token_reused
pair_of mismatch = err token_mismatch
pair_of expired = err token_expired
pair_of inactive = err account_not_active

module _ (crypto : Crypto) (settings : Settings) where
  -- `createTokenPair`, with the row of the new refresh token.
  abbrev pub new_pair : ℕ → User → Tables → TokenPair
  new_pair now user s = record {
    access_token = crypto.sign_access (access_payload user s);
    refresh_token = crypto.sign_refresh now (record { sub = user.id; jti = s.next_id });
  }

  abbrev pub new_refresh_token : ℕ → User → Tables → RefreshToken
  new_refresh_token now user s = record {
    id = s.next_id;
    user_id = user.id;
    token_hash = crypto.hash_lookup_value (new_pair now user s).refresh_token;
    expires_at = now + parse_expiry_to_ms settings.jwt_refresh_expires_in;
    revoked_at = none;
  }

  abbrev pub store_refresh_token : ℕ → User → Tables → Tables
  store_refresh_token now user s = record s {
    refresh_tokens = s.refresh_tokens ++ new_refresh_token now user s ∷ [];
    next_id = s.next_id + 1;
  }

  -- `issueTokenPair`
  abbrev pub issue_token_pair : ℕ → ℕ → Work Tables Failure TokenPair
  issue_token_pair now user_id = do
    found ← select (find_active_user user_id)
    user ← required found account_not_active
    pair ← select (new_pair now user)
    write (store_refresh_token now user)
    return pair

  abbrev pub invalidate_for :
      AuditAction → RotationOutcome → ℕ → ℕ → Work Tables Failure RotationOutcome
  invalidate_for action outcome now user_id = do
    write (write_audit action user_id)
    write (invalidate_all_sessions now user_id)
    return outcome

  abbrev pub rotate_live : ℕ → RefreshToken → UserStatus → Work Tables Failure RotationOutcome
  rotate_live now row status =
      if ltb row.expires_at now
      then (do write (revoke_token now row.id); return expired)
      else if not (is_active_user status)
      then (do write (revoke_all_refresh_tokens now row.user_id); return inactive)
      else (do
        write (revoke_token now row.id)
        pair ← issue_token_pair now row.user_id
        return (rotated pair))

  abbrev pub rotate_row :
      ℕ
      → Text
      → RefreshPayload
      → Option (RefreshToken × UserStatus)
      → Work Tables Failure RotationOutcome
  rotate_row now token payload none = return unrecognized
  rotate_row now token payload (some (row, status)) =
      if not (row.user_id == payload.sub)
      then return unrecognized
      else if not (text_eq row.token_hash (crypto.hash_lookup_value token))
      then invalidate_for refresh_token_mismatch mismatch now row.user_id
      else if has_time row.revoked_at
      then invalidate_for refresh_token_reuse reused now row.user_id
      else rotate_live now row status

  -- The transaction of `rotateRefreshToken`.
  unfoldable pub rotate_within : ℕ → Text → RefreshPayload → Work Tables Failure RotationOutcome
  rotate_within now token payload = do
    found ← select (find_token payload.jti)
    rotate_row now token payload found

  -- `revokeRefreshToken`
  unfoldable pub revoke_refresh_token : ℕ → Text → Work Tables Failure (Unit {0})
  revoke_refresh_token now token = do
    payload ← required (crypto.verify_refresh true now token) token_invalid
    write λ s. record s {
      refresh_tokens =
          update_where
            (λ t.
              t.id == payload.jti
              && t.user_id == payload.sub
              && text_eq t.token_hash (crypto.hash_lookup_value token)
              && not (has_time t.revoked_at))
            (revoke_at now) s.refresh_tokens;
    }
