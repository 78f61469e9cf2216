-- ===== src/Credential/Tests.antt =====
-- Runs of the services of accounts, and the theorems about them at these runs.
use mathlib.Core.Option
use mduara_api.Prelude.{
  ◌+◌, ◌≡◌, refl, true, false, ◌==◌, Option, none, some, List, [], ◌∷◌, map, find, any,
}
use mduara_api.Prelude.Text.{Text, codes, text_eq}
use mduara_api.Prelude.Outcome.{Outcome, err}
use mduara_api.Transaction.Retries.{transaction}
use mduara_api.Credential.Types.{
  Tables, User, active, OtpCode, password_reset, RefreshToken, Failure, invalid_credentials,
  unable_to_reset_password, token_reused, RefreshPayload, Settings, Crypto,
}
use mduara_api.Credential.Service.{
  authenticate_password, find_by_identifier, local_phone, reset_password, reset_within, verify_otp,
  verify_otp_alone, rotate_refresh_token, rotate_within, parse_expiry_to_ms, request_otp,
  request_within,
}
use mduara_api.Credential.Attempts.{Guess, sign_in, new_password, send, send_all, send_all-refused}
use mduara_api.Credential.Rotation.{could_rotate, rotate_refresh_token-once}
use mduara_api.Credential.Recovery.{HasReset, reset_password-checks}

abbrev decode : Text → Option RefreshPayload
decode (sub ∷ jti ∷ []) = some (record { sub = sub; jti = jti })
decode _ = none

-- Nothing is hidden, and no token expires.
abbrev plain : Crypto
plain = record {
  hash_secret = λ salt secret. secret;
  verify_secret = text_eq;
  hash_lookup_value = λ value. value;
  sign_access = λ p. p.sub ∷ [];
  verify_access = λ now token. none;
  sign_refresh = λ now p. p.sub ∷ p.jti ∷ [];
  verify_refresh = λ forever now token. decode token;
}

abbrev settings : Settings
settings = record {
  auth_max_failed_attempts = 3;
  auth_lockout_minutes = 15;
  otp_expires_minutes = 5;
  otp_max_verify_attempts = 2;
  otp_rate_limit_max = 3;
  otp_rate_limit_window_minutes = 15;
  otp_resend_cooldown_seconds = 60;
  jwt_refresh_expires_in = codes "7d";
}

abbrev phone : Text
phone = codes "+254712345678"

abbrev owner : User
owner = record {
  id = 1;
  phone = phone;
  email = codes "a@b.ke";
  pin_hash = codes "right";
  status = active;
  is_platform_admin = false;
  failed_login_attempts = 0;
  login_locked_until = none;
  session_version = 4;
  last_login_at = none;
  pin_changed_at = none;
}

abbrev reset_code : OtpCode
reset_code = record {
  id = 51;
  user_id = 1;
  phone = phone;
  code_hash = codes "123456";
  purpose = password_reset;
  expires_at = 900;
  created_at = 600;
  attempt_count = 0;
  consumed_at = none;
}

abbrev refresh_token : RefreshToken
refresh_token = record {
  id = 71;
  user_id = 1;
  token_hash = 1 ∷ 71 ∷ [];
  expires_at = 5000;
  revoked_at = none;
}

abbrev accounts : Tables
accounts = record {
  users = owner ∷ [];
  otp_codes = reset_code ∷ [];
  otp_requests = [];
  refresh_tokens = refresh_token ∷ [];
  memberships = [];
  audits = [];
  next_id = 100;
}

seven_days : parse_expiry_to_ms (codes "7d") ≡ 604_800_000
seven_days = refl

unreadable_expiry : parse_expiry_to_ms (codes "7 days") ≡ 604_800_000
unreadable_expiry = refl

signs_in_with_local_number :
    Option.map
      (λ (u : User). u.id)
      (find_by_identifier phone ((record owner { phone = codes "0712345678" }) ∷ []))
    ≡ some 1
unfolding find_by_identifier local_phone
signs_in_with_local_number = refl

-- The work of a refused sign-in counts it, but its transaction is rolled back.
counted_in_the_work :
    map
      (λ (u : User). u.failed_login_attempts)
      (authenticate_password plain settings 700 phone (codes "wrong") accounts).1.users
    ≡ 1 ∷ []
unfolding authenticate_password find_by_identifier local_phone
counted_in_the_work = refl

abbrev guesses : List Guess
guesses =
    sign_in 700 phone (codes "wrong")
    ∷ sign_in 701 phone (codes "wrong")
    ∷ sign_in 702 phone (codes "wrong")
    ∷ sign_in 703 phone (codes "wrong")
    ∷ new_password 704 phone (codes "000000") (codes "mine") 5
    ∷ new_password 705 phone (codes "000001") (codes "mine") 5
    ∷ new_password 706 phone (codes "000002") (codes "mine") 5
    ∷ []

abbrev refusal : Failure → Outcome Failure (Unit {0})
refusal failure = err failure

send_all-refused_example : send_all plain settings guesses accounts ≡ accounts
unfolding send authenticate_password find_by_identifier local_phone transaction reset_password
    reset_within verify_otp
send_all-refused_example =
    send_all-refused plain settings guesses accounts
      (refused, (refused, (refused, (refused, (no_reset, (no_reset, (no_reset, tt)))))))
  where
    refused : (failure : Failure) × (refusal invalid_credentials ≡ err failure)
    refused = (invalid_credentials, refl)

    no_reset : (failure : Failure) × (refusal unable_to_reset_password ≡ err failure)
    no_reset = (unable_to_reset_password, refl)

-- In a transaction of its own a wrong code counts: the second one was the last.
third_code_too_late :
    (verify_otp_alone plain settings 703 phone
      (codes "123456")
      password_reset
      (verify_otp_alone plain settings 702 phone
        (codes "2")
        password_reset
        (verify_otp_alone plain settings 701 phone (codes "1") password_reset accounts).1).1).0
    ≡ err Failure.otp_missing
unfolding verify_otp_alone transaction
third_code_too_late = refl

second_request_waits :
    (request_otp plain settings 660
      (some 1)
      phone
      password_reset
      0
      (codes "2")
      true
      (request_otp plain settings 600
        (some 1)
        phone
        password_reset
        0
        (codes "1")
        true
        accounts).1).0
    ≡ err Failure.otp_resend_cooldown
unfolding request_otp request_within transaction
second_request_waits = refl

rotate_refresh_token-once_example :
    ((rotate_refresh_token plain settings 800
        (1 ∷ 71 ∷ [])
        (rotate_refresh_token plain settings 700 (1 ∷ 71 ∷ []) accounts).1).0
      ≡ err token_reused)
    × (any
          (could_rotate 1)
          (rotate_refresh_token plain settings 800
            (1 ∷ 71 ∷ [])
            (rotate_refresh_token plain settings 700 (1 ∷ 71 ∷ []) accounts).1).1.refresh_tokens
        ≡ false)
    × (find
          (λ u. u.id == 1)
          (rotate_refresh_token plain settings 800
            (1 ∷ 71 ∷ [])
            (rotate_refresh_token plain settings 700 (1 ∷ 71 ∷ []) accounts).1).1.users
        ≡ Option.map
            (λ (u : User). record u { session_version = u.session_version + 1 })
            (find
              (λ u. u.id == 1)
              (rotate_refresh_token plain settings 700 (1 ∷ 71 ∷ []) accounts).1.users))
unfolding rotate_refresh_token rotate_within transaction
rotate_refresh_token-once_example =
    rotate_refresh_token-once plain settings 700 800 (1 ∷ 71 ∷ []) (record { sub = 1; jti = 71 })
      (record { access_token = 1 ∷ []; refresh_token = 1 ∷ 100 ∷ [] }) accounts
      (rotate_refresh_token plain settings 700 (1 ∷ 71 ∷ []) accounts).1 refl refl refl

abbrev after_reset : Tables
unfolding reset_password reset_within verify_otp transaction
after_reset = (reset_password plain settings 700 phone (codes "123456") (codes "new") 5 accounts).1

reset_password-checks_example :
    (otp : OtpCode) × HasReset plain settings 700 phone
      (codes "123456")
      (codes "new")
      otp
      accounts
      after_reset
    × (find (λ u. u.id == otp.user_id) after_reset.users
        ≡ Option.map
            (λ (u : User). record u {
              pin_hash = codes "new";
              pin_changed_at = some 700;
              failed_login_attempts = 0;
              login_locked_until = none;
              session_version = u.session_version + 1;
            })
            (find (λ u. u.id == otp.user_id) accounts.users))
    × (any (could_rotate otp.user_id) after_reset.refresh_tokens ≡ false)
unfolding after_reset reset_password reset_within verify_otp transaction
reset_password-checks_example =
    reset_password-checks plain settings 700 phone (codes "123456") (codes "new") 5 accounts
      after_reset refl
