-- ===== src/Credential/Attempts.antt =====
-- Requests that are refused: what they leave behind (services/credential.service.ts,
-- services/otp.service.ts, controllers/auth.controller.ts).
use mduara_api.Prelude.{ℕ, ◌≡◌, refl, ◌∙◌, List, [], ◌∷◌}
use mduara_api.Prelude.Text.{Text}
use mduara_api.Prelude.Outcome.{Outcome, ok, err}
use mduara_api.Transaction.Work.{Work}
use mduara_api.Transaction.Retries.{transaction}
use mduara_api.Transaction.Rollback.{transaction-err}
use mduara_api.Credential.Types.{
  Tables, Failure, Settings, Crypto, unable_to_reset_password, unable_to_reset_pin, password_reset,
  pin_reset, password_reset_done, pin_reset_done,
}
use mduara_api.Credential.Service.{
  authenticate_password, reset_password, reset_pin, verify_registration, collapse, reset_within,
}

-- A request that anyone may send, with what its caller enters.
pub data Guess : Type 0 where
  sign_in : ℕ → Text → Text → Guess
  new_password : ℕ → Text → Text → Text → ℕ → Guess
  new_pin : ℕ → Text → Text → Text → ℕ → Guess
  first_code : ℕ → Text → Text → Guess

-- What a request does, without its answer: the failure, if it is refused.
abbrev pub forget : {A : Type 0} → Outcome Failure A × Tables → Outcome Failure (Unit {0}) × Tables
forget (ok result, s) = (ok tt, s)
forget (err failure, s) = (err failure, s)

module _ (crypto : Crypto) (settings : Settings) where
  -- Each request runs in its transaction.
  unfoldable pub send : Guess → Tables → Outcome Failure (Unit {0}) × Tables
  unfolding transaction
  send (sign_in now identifier password) s =
      forget (transaction (authenticate_password crypto settings now identifier password) s)
  send (new_password now phone code new salt) s =
      reset_password crypto settings now phone code new salt s
  send (new_pin now phone code new salt) s = reset_pin crypto settings now phone code new salt s
  send (first_code now phone code) s =
      forget (transaction (verify_registration crypto settings now phone code) s)

  abbrev pub send_all : List Guess → Tables → Tables
  send_all [] s = s
  send_all (guess ∷ guesses) s = send_all guesses (send guess s).1

  -- Every one of them is refused.
  abbrev pub AreRefused : List Guess → Tables → Type 0
  AreRefused [] s = Unit {0}
  AreRefused (guess ∷ guesses) s =
      ((failure : Failure) × ((send guess s).0 ≡ err failure)) × AreRefused guesses (send guess s).1

forget-err :
    {A : Type 0} (r : Outcome Failure A × Tables) {failure : Failure}
    → (forget r).0 ≡ err failure
    → ((cause : Failure) × (r.0 ≡ err cause)) × ((forget r).1 ≡ r.1)
forget-err (ok result, s) h = cc
forget-err (err failure, s) h = ((failure, refl), refl)

collapse-err :
    {A : Type 0} (unable : Failure) (r : Outcome Failure A × Tables) {failure : Failure}
    → (collapse unable r).0 ≡ err failure
    → ((cause : Failure) × (r.0 ≡ err cause)) × ((collapse unable r).1 ≡ r.1)
collapse-err unable (ok result, s) h = cc
collapse-err unable (err failure, s) h = ((failure, refl), refl)

forgotten :
    {A : Type 0} (work : Work Tables Failure A) (s : Tables) {failure : Failure}
    → (forget (transaction work s)).0 ≡ err failure
    → (forget (transaction work s)).1 ≡ s
forgotten work s h =
    let ((cause, thrown), same) = forget-err (transaction work s) h in
    same ∙ transaction-err work s thrown

collapsed :
    {A : Type 0} (unable : Failure) (work : Work Tables Failure A) (s : Tables) {failure : Failure}
    → (collapse unable (transaction work s)).0 ≡ err failure
    → (collapse unable (transaction work s)).1 ≡ s
collapsed unable work s h =
    let ((cause, thrown), same) = collapse-err unable (transaction work s) h in
    same ∙ transaction-err work s thrown

module _ (crypto : Crypto) (settings : Settings) where
  send-refused :
      (guess : Guess) (s : Tables) {failure : Failure}
      → (send crypto settings guess s).0 ≡ err failure
      → (send crypto settings guess s).1 ≡ s
  unfolding send reset_password reset_pin
  send-refused (sign_in now identifier password) s h =
      forgotten (authenticate_password crypto settings now identifier password) s h
  send-refused (new_password now phone code new salt) s h =
      collapsed unable_to_reset_password
        (reset_within crypto settings password_reset unable_to_reset_password password_reset_done
          now phone code (crypto.hash_secret salt new))
        s h
  send-refused (new_pin now phone code new salt) s h =
      collapsed unable_to_reset_pin
        (reset_within crypto settings pin_reset unable_to_reset_pin pin_reset_done now phone code
          (crypto.hash_secret salt new))
        s h
  send-refused (first_code now phone code) s h =
      forgotten (verify_registration crypto settings now phone code) s h

  -- Sign-ins, password and PIN resets and registration codes that are all refused, however many they
  -- are, leave every table as it was: neither `failed_login_attempts` nor `login_locked_until` of a
  -- user, nor `attempt_count` of a one-time code, has changed, and no audit is written.
  pub send_all-refused :
      (guesses : List Guess) (s : Tables)
      → AreRefused crypto settings guesses s
      → send_all crypto settings guesses s ≡ s
  send_all-refused [] s refused = refl
  send_all-refused (guess ∷ guesses) s ((failure, h), refused) =
      send_all-refused guesses (send crypto settings guess s).1 refused ∙ send-refused guess s h
