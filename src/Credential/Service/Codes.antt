-- ===== src/Credential/Service/Codes.antt =====
-- `class OtpService` (services/otp.service.ts).
use mduara_api.Prelude.{
  ℕ, ◌+◌, ◌*◌, Bool, true, false, not, ◌&&◌, Option, none, some, List, [], ◌∷◌, ◌++◌, update_where,
  ltb, leb, ◌==◌, if◌then◌else◌, count_where,
}
use mduara_api.Prelude.Text.{Text, text_eq}
use mduara_api.Prelude.Outcome.{Outcome, ok, err}
use mduara_api.Transaction.Work.{Work, ◌>>=◌, ◌>>◌, return, select, write, throw_if}
use mduara_api.Transaction.Retries.{transaction}
use mduara_api.Credential.Types.{
  Tables, OtpPurpose, purpose_eq, OtpCode, OtpRequest, Failure, otp_missing, otp_expired,
  otp_attempts_exceeded, otp_invalid, otp_resend_cooldown, otp_rate_limited, otp_not_delivered,
  Settings, Crypto,
}
use mduara_api.Credential.Service.Tokens.{has_time}

-- A code that waits to be entered for this purpose.
abbrev pub is_unconsumed : Text → OtpPurpose → OtpCode → Bool
is_unconsumed phone purpose o =
    text_eq o.phone phone && purpose_eq o.purpose purpose && not (has_time o.consumed_at)

abbrev pub later_of : OtpCode → Option OtpCode → Option OtpCode
later_of o none = some o
later_of o (some other) = if ltb o.created_at other.created_at then some other else some o

-- `ORDER BY created_at DESC LIMIT 1`
abbrev pub latest_code : Text → OtpPurpose → List OtpCode → Option OtpCode
latest_code phone purpose [] = none
latest_code phone purpose (o ∷ others) =
    let rest = latest_code phone purpose others in
    if is_unconsumed phone purpose o then later_of o rest else rest

abbrev pub update_code : ℕ → (OtpCode → OtpCode) → Tables → Tables
update_code id f s = record s { otp_codes = update_where (λ o. o.id == id) f s.otp_codes }

abbrev pub consume : ℕ → ℕ → Tables → Tables
consume now id = update_code id (λ o. record o { consumed_at = some now })

-- A wrong code is counted, and consumes the right one when it was the last one allowed.
abbrev pub count_attempt : Settings → ℕ → OtpCode → OtpCode
count_attempt settings now o = record o {
  attempt_count = o.attempt_count + 1;
  consumed_at =
      if leb settings.otp_max_verify_attempts (o.attempt_count + 1)
      then some now
      else o.consumed_at;
}

-- `VerifyOutcome`
pub data VerifyOutcome : Type 0 where
  verified : ℕ → VerifyOutcome
  missing expired attempts_exceeded invalid : VerifyOutcome

-- The requests of the window: `created_at >= CURRENT_TIMESTAMP - window`.
abbrev pub in_window : Settings → ℕ → Text → OtpPurpose → OtpRequest → Bool
in_window settings now phone purpose r =
    text_eq r.phone phone
    && purpose_eq r.purpose purpose
    && leb now (r.created_at + settings.otp_rate_limit_window_minutes * 60_000)

-- `MAX(created_at)`
abbrev pub newest : (OtpRequest → Bool) → List OtpRequest → Option ℕ
newest p [] = none
newest p (r ∷ others) =
    let rest = newest p others in
    if p r
    then elim rest [
      | none ↦ some r.created_at
      | some time ↦ if ltb r.created_at time then some time else some r.created_at
    ]
    else rest

abbrev pub is_cooling_down : Settings → ℕ → Option ℕ → Bool
is_cooling_down settings now none = false
is_cooling_down settings now (some time) =
    ltb now (time + settings.otp_resend_cooldown_seconds * 1000)

module _ (crypto : Crypto) (settings : Settings) where
  abbrev pub new_code : ℕ → Text → OtpPurpose → ℕ → ℕ → Text → ℕ → OtpCode
  new_code now phone purpose user_id salt code id = record {
    id = id;
    user_id = user_id;
    phone = phone;
    code_hash = crypto.hash_secret salt code;
    purpose = purpose;
    expires_at = now + settings.otp_expires_minutes * 60_000;
    created_at = now;
    attempt_count = 0;
    consumed_at = none;
  }

  abbrev pub record_request : ℕ → Text → OtpPurpose → Tables → Tables
  record_request now phone purpose s = record s {
    otp_requests =
        s.otp_requests ++ (record { phone = phone; purpose = purpose; created_at = now }) ∷ [];
  }

  -- The older codes are consumed, and the new one is stored.
  abbrev pub replace_code : ℕ → Text → OtpPurpose → ℕ → ℕ → Text → Tables → Tables
  replace_code now phone purpose user_id salt code s = record s {
    otp_codes =
        update_where (is_unconsumed phone purpose) (λ o. record o { consumed_at = some now })
          s.otp_codes
        ++ new_code now phone purpose user_id salt code s.next_id ∷ [];
    next_id = s.next_id + 1;
  }

  abbrev pub store_for :
      ℕ → Text → OtpPurpose → ℕ → Text → Option ℕ → Work Tables Failure (Option ℕ)
  store_for now phone purpose salt code none = return none
  store_for now phone purpose salt code (some user_id) = do
    id ← select (λ s. s.next_id)
    write (replace_code now phone purpose user_id salt code)
    return (some id)

  -- The transaction of `requestOtp`: the code and the salt of its hash have been drawn before it.
  unfoldable pub request_within :
      ℕ → Option ℕ → Text → OtpPurpose → ℕ → Text → Work Tables Failure (Option ℕ)
  request_within now user_id phone purpose salt code = do
    last ← select (λ s. newest (in_window settings now phone purpose) s.otp_requests)
    throw_if (is_cooling_down settings now last) otp_resend_cooldown
    count ← select (λ s. count_where (in_window settings now phone purpose) s.otp_requests)
    throw_if (leb settings.otp_rate_limit_max count) otp_rate_limited
    write (record_request now phone purpose)
    store_for now phone purpose salt code user_id

  abbrev pub discard_undelivered : ℕ → ℕ → Tables → Tables
  discard_undelivered now id s = record s {
    otp_codes =
        update_where (λ o. o.id == id && not (has_time o.consumed_at))
          (λ o. record o { consumed_at = some now }) s.otp_codes;
  }

  -- `delivered` is how `sms.sendOtp` answers.
  abbrev pub deliver :
      Bool → ℕ → Outcome Failure (Option ℕ) × Tables → Outcome Failure (Unit {0}) × Tables
  deliver delivered now (err failure, s) = (err failure, s)
  deliver delivered now (ok none, s) = (ok tt, s)
  deliver true now (ok (some id), s) = (ok tt, s)
  deliver false now (ok (some id), s) = (err otp_not_delivered, discard_undelivered now id s)

  unfoldable pub request_otp :
      ℕ → Option ℕ → Text → OtpPurpose → ℕ → Text → Bool → Work Tables Failure (Unit {0})
  unfolding request_within transaction
  request_otp now user_id phone purpose salt code delivered s =
      deliver delivered now (transaction (request_within now user_id phone purpose salt code) s)

  abbrev pub verify_latest : ℕ → Text → Option OtpCode → Work Tables Failure VerifyOutcome
  verify_latest now code none = return missing
  verify_latest now code (some otp) =
      if leb settings.otp_max_verify_attempts otp.attempt_count
      then (do write (consume now otp.id); return attempts_exceeded)
      else if ltb otp.expires_at now
      then (do write (consume now otp.id); return expired)
      else if not (crypto.verify_secret code otp.code_hash)
      then (do write (update_code otp.id (count_attempt settings now)); return invalid)
      else (do write (consume now otp.id); return (verified otp.user_id))

  abbrev pub user_of : VerifyOutcome → Outcome Failure ℕ
  user_of (verified user_id) = ok user_id
  user_of missing = err otp_missing
  user_of expired = err otp_expired
  user_of attempts_exceeded = err otp_attempts_exceeded
  user_of invalid = err otp_invalid

  -- `verify` of `verifyOtp`
  abbrev pub verify_within : ℕ → Text → Text → OtpPurpose → Work Tables Failure VerifyOutcome
  verify_within now phone code purpose = do
    otp ← select (λ s. latest_code phone purpose s.otp_codes)
    verify_latest now code otp

  -- `verifyOtp` with an executor: within the transaction of its caller.
  unfoldable pub verify_otp : ℕ → Text → Text → OtpPurpose → Work Tables Failure ℕ
  verify_otp now phone code purpose = do
    outcome ← verify_within now phone code purpose
    λ s. (user_of outcome, s)

  -- `verifyOtp` without one: in a transaction of its own, which commits before it throws.
  abbrev pub answer : Outcome Failure VerifyOutcome × Tables → Outcome Failure ℕ × Tables
  answer (err failure, s) = (err failure, s)
  answer (ok outcome, s) = (user_of outcome, s)

  unfoldable pub verify_otp_alone : ℕ → Text → Text → OtpPurpose → Work Tables Failure ℕ
  unfolding transaction
  verify_otp_alone now phone code purpose s =
      answer (transaction (verify_within now phone code purpose) s)
