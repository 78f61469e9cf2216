-- ===== src/Credential/Service/Access.antt =====
-- `rotateRefreshToken` as its callers see it (services/token.service.ts), and `authenticate`
-- (middlewares/auth.middleware.ts).
use mduara_api.Prelude.{ℕ, Bool, false, ◌&&◌, Option, none, some, find, ◌==◌}
use mduara_api.Prelude.Text.{Text, text_eq, codes, trim, is_blank}
use mduara_api.Prelude.Outcome.{Outcome, ok, err, ◌>>=◌, ◌>>◌, guard, refuse, require}
use mduara_api.Transaction.Work.{Work}
use mduara_api.Transaction.Retries.{transaction}
use mduara_api.Credential.Types.{
  Tables, User, Failure, token_invalid, bearer_malformed, bearer_missing, session_invalid,
  AccessPayload, RefreshPayload, TokenPair, Settings, Crypto,
}
use mduara_api.Credential.Service.Tokens.{is_active_user, RotationOutcome, pair_of, rotate_within}
use mduara_api.Credential.Service.Login.{without_prefix}

abbrev pub answer_rotation :
    Outcome Failure RotationOutcome × Tables → Outcome Failure TokenPair × Tables
answer_rotation (err failure, s) = (err failure, s)
answer_rotation (ok outcome, s) = (pair_of outcome, s)

module _ (crypto : Crypto) (settings : Settings) where
  abbrev pub rotate_decoded : ℕ → Text → Option RefreshPayload → Work Tables Failure TokenPair
  rotate_decoded now token none s = (err token_invalid, s)
  rotate_decoded now token (some payload) s =
      answer_rotation (transaction (rotate_within crypto settings now token payload) s)

  -- `rotateRefreshToken`: the transaction commits before the error of its outcome is thrown.
  unfoldable pub rotate_refresh_token : ℕ → Text → Work Tables Failure TokenPair
  unfolding transaction rotate_within
  rotate_refresh_token now token = rotate_decoded now token (crypto.verify_refresh false now token)

  abbrev pub is_current : AccessPayload → User → Bool
  is_current payload user =
      is_active_user user.status
      && user.session_version == payload.session_version
      && text_eq user.phone payload.phone

  -- `authenticate`, from the Authorization header to the user of the request.
  unfoldable pub authenticate : ℕ → Option Text → Tables → Outcome Failure User
  authenticate now header s = do
    bearer ← require header bearer_malformed
    rest ← require (without_prefix (codes "Bearer ") bearer) bearer_malformed
    let token = trim rest
    refuse (is_blank rest) bearer_missing
    payload ← require (crypto.verify_access now token) token_invalid
    user ← require (find (λ u. u.id == payload.sub) s.users) session_invalid
    guard (is_current payload user) session_invalid
    ok user
