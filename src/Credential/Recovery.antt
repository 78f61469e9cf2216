-- ===== src/Credential/Recovery.antt =====
-- What a reset of a password went by, and what it leaves (`resetPassword`,
-- services/credential.service.ts, with `verifyOtp` of services/otp.service.ts).
use mathlib.Core.Option
use mduara_api.Prelude.{
  ℕ, ◌+◌, ◌≤◌, ◌<◌, ◌≡◌, refl, ap, ◌∙◌, true, false, Option, none, some, find, any, update_where,
  ◌==◌, inl, inr, Option-cases, arith, find-update_self,
}
use mduara_api.Prelude.Text.{Text}
use mduara_api.Prelude.Outcome.{Outcome, ok, err}
use mduara_api.Transaction.Retries.{transaction, outcome, finish}
use mduara_api.Credential.Types.{
  Tables, User, OtpCode, password_reset, password_reset_done, Failure, Settings, Crypto,
  unable_to_reset_password,
}
use mduara_api.Credential.Service.{
  reset_password, reset_within, verify_otp, latest_code, is_active_user, collapse,
  find_user_with_phone, with_password, consume, invalidate_all_sessions, update_user, write_audit,
}
use mduara_api.Credential.Rotation.{could_rotate, revoked-any}

map_twice :
    (f g : User → User) (found : Option User)
    → Option.map f (Option.map g found) ≡ Option.map (λ u. f (g u)) found
map_twice f g none = refl
map_twice f g (some u) = refl

module _ (crypto : Crypto) (settings : Settings) where
  -- The code and the user that a reset went by, and the tables that it leaves.
  pub record HasReset (now : ℕ) (phone code pin_hash : Text) (otp : OtpCode) (s s' : Tables)
      : Type 0 where
    pub newest_code : latest_code phone password_reset s.otp_codes ≡ some otp
    pub tries_left : otp.attempt_count < settings.otp_max_verify_attempts
    pub unexpired : now ≤ otp.expires_at
    pub matches : crypto.verify_secret code otp.code_hash ≡ true
    pub user : User
    pub known : find_user_with_phone otp.user_id phone s ≡ some user
    pub is_active : is_active_user user.status ≡ true
    pub stored :
        s'
        ≡ write_audit password_reset_done otp.user_id (
            invalidate_all_sessions now otp.user_id (
              update_user otp.user_id
                (with_password crypto settings now pin_hash)
                (consume now otp.id s)))

  reset_within-HasReset :
      (now : ℕ) (phone code pin_hash : Text) (s s' : Tables)
      → reset_within crypto settings password_reset unable_to_reset_password password_reset_done now
          phone code pin_hash s
        ≡ (ok tt, s')
      → (otp : OtpCode) × HasReset now phone code pin_hash otp s s'
  unfolding reset_within verify_otp
  reset_within-HasReset now phone code pin_hash s s' h =
      elim (Option-cases (latest_code phone password_reset s.otp_codes)) [
        | inl nothing ↦ absurd (ground (arith, nothing, h))
        | inr (otp, e) ↦ elim (Option-cases (find_user_with_phone otp.user_id phone s)) [
          | inl nobody ↦ absurd (ground (arith, e, nobody, h))
          | inr (user, known) ↦ (
            otp,
            record {
              newest_code = e;
              tries_left = ground (arith, e, h);
              unexpired = ground (arith, e, h);
              matches = ground (arith, e, h);
              user = user;
              known = known;
              is_active = ground (arith, e, known, h);
              stored = ground (arith, e, known, h);
            },
          )
        ]
      ]

  reset-inverse :
      (unable : Failure) (done : Outcome Failure (Unit {0}) × Tables) (s s' : Tables)
      → collapse unable (outcome (finish none done s).0, (finish none done s).1) ≡ (ok tt, s')
      → done ≡ (ok tt, s')
  reset-inverse unable (err failure, written) s s' h = cc
  reset-inverse unable (ok tt, written) s s' h = h

  -- A password is reset only with the latest unconsumed code of the phone number, while it has tries
  -- left and has not expired, and for an active user with this number. Afterwards the user of the
  -- code has the new password and no failed attempt, lock or old session version, and no refresh
  -- token of the user is live.
  pub reset_password-checks :
      (now : ℕ) (phone code new : Text) (salt : ℕ) (s s' : Tables)
      → reset_password crypto settings now phone code new salt s ≡ (ok tt, s')
      → (otp : OtpCode) × HasReset now phone code (crypto.hash_secret salt new) otp s s'
        × (find (λ u. u.id == otp.user_id) s'.users
            ≡ Option.map
                (λ (u : User). record u {
                  pin_hash = crypto.hash_secret salt new;
                  pin_changed_at = some now;
                  failed_login_attempts = 0;
                  login_locked_until = none;
                  session_version = u.session_version + 1;
                })
                (find (λ u. u.id == otp.user_id) s.users))
        × (any (could_rotate otp.user_id) s'.refresh_tokens ≡ false)
  unfolding reset_password reset_within transaction
  reset_password-checks now phone code new salt s s' h =
      let hash = crypto.hash_secret salt new in
      let work =
        reset_within crypto settings password_reset unable_to_reset_password password_reset_done now
          phone code hash s in
      let (otp, reset) =
        reset_within-HasReset now phone code hash s s'
          (reset-inverse unable_to_reset_password work s s' h) in
      let mine = λ (u : User). u.id == otp.user_id in
      let renewed = with_password crypto settings now hash in
      let bumped = λ (u : User). record u { session_version = u.session_version + 1 } in
      (
        otp,
        reset,
        ap (λ (t : Tables). find mine t.users) reset.stored
            ∙ find-update_self mine bumped (λ u. refl) (update_where mine renewed s.users)
            ∙ ap (Option.map bumped) (find-update_self mine renewed (λ u. refl) s.users)
            ∙ map_twice bumped renewed (find mine s.users),
        ap (λ (t : Tables). any (could_rotate otp.user_id) t.refresh_tokens) reset.stored
            ∙ revoked-any now otp.user_id s.refresh_tokens,
      )
