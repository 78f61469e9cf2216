-- ===== src/Credential/Rotation.antt =====
-- A refresh token rotates once: what `rotateRefreshToken` (services/token.service.ts) does with a
-- token that has been rotated before.
use mduara_api.Prelude.{
  ℕ, ◌+◌, ◌≡◌, refl, sym, ap, ◌∙◌, Bool, true, false, not, ◌&&◌, Option, none, some, List, [], ◌∷◌,
  find, any, update_where, ◌==◌, inl, inr, Option-cases, arith, find-append_some, find-update_where,
  find-update_self, ==_refl,
}
use mathlib.Core.Option
use mduara_api.Prelude.Text.{Text, text_eq}
use mduara_api.Prelude.Outcome.{Outcome, ok, err}
use mduara_api.Transaction.Retries.{transaction, outcome, finish}
use mduara_api.Credential.Types.{
  Tables, User, UserStatus, RefreshToken, Failure, token_reused, refresh_token_reuse,
  RefreshPayload, TokenPair, Settings, Crypto,
}
use mduara_api.Credential.Service.{
  RotationOutcome, rotated, reused, unrecognized, mismatch, expired, inactive, answer_rotation,
  rotate_decoded, invalidate_all_sessions, write_audit, rotate_refresh_token, rotate_within,
  rotate_row, find_token, find_active_user, has_time, revoke_at, revoke_token, store_refresh_token,
  new_refresh_token,
}

-- A token of the user that could still be rotated.
abbrev pub could_rotate : ℕ → RefreshToken → Bool
could_rotate user_id t = t.user_id == user_id && not (has_time t.revoked_at)

pub revoked-any :
    (now user_id : ℕ) (tokens : List RefreshToken)
    → any (could_rotate user_id) (update_where (could_rotate user_id) (revoke_at now) tokens)
      ≡ false
revoked-any now user_id [] = refl
revoked-any now user_id (t ∷ tokens) = ground (arith, revoked-any now user_id tokens)

find_token-some :
    (jti : ℕ) (s : Tables) {row : RefreshToken} {status : UserStatus}
    → find_token jti s ≡ some (row, status)
    → (find (λ t. t.id == jti) s.refresh_tokens ≡ some row)
      × (Option.map (λ (u : User). u.status) (find (λ u. u.id == row.user_id) s.users)
          ≡ some status)
find_token-some jti s {row} h = elim (Option-cases (find (λ t. t.id == jti) s.refresh_tokens)) [
  | inl nothing ↦ absurd (ground (arith, nothing, h))
  | inr (t, e) ↦ elim (Option-cases (find (λ u. u.id == t.user_id) s.users)) [
    | inl nobody ↦ absurd (ground (arith, e, nobody, h))
    | inr (u, known) ↦ ground (arith, e, known, h)
  ]
]

find_token-of :
    (jti : ℕ) (s : Tables) {row : RefreshToken} {status : UserStatus}
    → find (λ t. t.id == jti) s.refresh_tokens ≡ some row
    → Option.map (λ (u : User). u.status) (find (λ u. u.id == row.user_id) s.users) ≡ some status
    → find_token jti s ≡ some (row, status)
find_token-of jti s {row} stored known =
    elim (Option-cases (find (λ u. u.id == row.user_id) s.users)) [
      | inl nobody ↦ absurd (ground (arith, nobody, known))
      | inr (u, e) ↦ ground (arith, stored, e, known)
    ]

module _ (crypto : Crypto) (settings : Settings) where
  -- What a rotation that returned a pair went by, and what it wrote.
  pub record HasRotated (now : ℕ) (token : Text) (payload : RefreshPayload) (row : RefreshToken)
      (s s' : Tables) : Type 0 where
    pub owned : (row.user_id == payload.sub) ≡ true
    pub hashed : text_eq row.token_hash (crypto.hash_lookup_value token) ≡ true
    pub unrevoked : has_time row.revoked_at ≡ false
    pub user : User
    pub stored : s' ≡ store_refresh_token crypto settings now user (revoke_token now row.id s)

  rotate_row-HasRotated :
      (now : ℕ) (token : Text) (payload : RefreshPayload)
      (found : Option (RefreshToken × UserStatus)) (s s' : Tables) {pair : TokenPair}
      → rotate_row crypto settings now token payload found s ≡ (ok (rotated pair), s')
      → (row : RefreshToken) × (status : UserStatus) × (found ≡ some (row, status))
        × HasRotated now token payload row s s'
  rotate_row-HasRotated now token payload none s s' h = cc
  rotate_row-HasRotated now token payload (some (row, status)) s s' h = (
    row,
    status,
    refl,
    elim (Option-cases (find_active_user row.user_id (revoke_token now row.id s))) [
      | inl nobody ↦ absurd (ground (arith, nobody, h))
      | inr (user, e) ↦ record {
        owned = ground (arith, h);
        hashed = ground (arith, h);
        unrevoked = ground (arith, h);
        user = user;
        stored = ground (arith, e, h);
      }
    ],
  )

  -- The row of a token that has just been rotated.
  find_token-rotated :
      (now jti : ℕ) (user : User) (s : Tables) {row : RefreshToken} {status : UserStatus}
      → find_token jti s ≡ some (row, status)
      → find_token jti (store_refresh_token crypto settings now user (revoke_token now row.id s))
        ≡ some (revoke_at now row, status)
  find_token-rotated now jti user s {row} {status} h =
      let (stored, known) = find_token-some jti s h in
      let kept : find (λ t. t.id == jti)
            (update_where (λ t. t.id == row.id) (revoke_at now) s.refresh_tokens)
          ≡ some (revoke_at now row) =
        find-update_where (λ t. t.id == jti) (λ t. t.id == row.id) (revoke_at now) (λ t. refl)
          s.refresh_tokens
        ∙ ground (arith, stored, ==_refl row.id) in
      let again =
        find-append_some (λ t. t.id == jti)
          (update_where (λ t. t.id == row.id) (revoke_at now) s.refresh_tokens)
          (new_refresh_token crypto settings now user (revoke_token now row.id s) ∷ []) kept in
      find_token-of jti (store_refresh_token crypto settings now user (revoke_token now row.id s))
        again known

  answered-inverse :
      (done : Outcome Failure RotationOutcome × Tables) (s s' : Tables) {pair : TokenPair}
      → answer_rotation (outcome (finish none done s).0, (finish none done s).1) ≡ (ok pair, s')
      → done ≡ (ok (rotated pair), s')
  answered-inverse (err failure, written) s s' h = cc
  answered-inverse (ok (rotated p), written) s s' h = ground (arith, h)
  answered-inverse (ok unrecognized, written) s s' h = cc
  answered-inverse (ok reused, written) s s' h = cc
  answered-inverse (ok mismatch, written) s s' h = cc
  answered-inverse (ok expired, written) s s' h = cc
  answered-inverse (ok inactive, written) s s' h = cc

  -- A row that is revoked already.
  rotate_row-reused :
      (later now : ℕ) (token : Text) (payload : RefreshPayload) (row : RefreshToken)
      (status : UserStatus) (s : Tables)
      → (row.user_id == payload.sub) ≡ true
      → text_eq row.token_hash (crypto.hash_lookup_value token) ≡ true
      → rotate_row crypto settings later token payload (some (revoke_at now row, status)) s ≡ (
        ok reused,
        invalidate_all_sessions later row.user_id (write_audit refresh_token_reuse row.user_id s),
      )
  rotate_row-reused later now token payload row status s owned hashed =
      ground (arith, owned, hashed)

  -- A refresh token rotates once. If a rotation returned a pair, then a later one of the same token,
  -- still within its signed lifetime, is refused as a reuse; after it no refresh token of the user,
  -- the ones issued since included, is live, and the user's session version has gone up by one.
  pub rotate_refresh_token-once :
      (now later : ℕ) (token : Text) (payload : RefreshPayload) (pair : TokenPair) (s s' : Tables)
      → crypto.verify_refresh false now token ≡ some payload
      → crypto.verify_refresh false later token ≡ some payload
      → rotate_refresh_token crypto settings now token s ≡ (ok pair, s')
      → ((rotate_refresh_token crypto settings later token s').0 ≡ err token_reused)
        × (any
              (could_rotate payload.sub)
              (rotate_refresh_token crypto settings later token s').1.refresh_tokens
            ≡ false)
        × (find
              (λ u. u.id == payload.sub)
              (rotate_refresh_token crypto settings later token s').1.users
            ≡ Option.map
                (λ (u : User). record u { session_version = u.session_version + 1 })
                (find (λ u. u.id == payload.sub) s'.users))
  unfolding rotate_refresh_token rotate_within transaction
  rotate_refresh_token-once now later token payload pair s s' known still returned =
      let works =
        answered-inverse (rotate_row crypto settings now token payload (find_token payload.jti s) s)
          s s' (sym (ap (λ d. rotate_decoded crypto settings now token d s) known) ∙ returned) in
      let (row, status, stored, h) =
        rotate_row-HasRotated now token payload (find_token payload.jti s) s s' works in
      let found : find_token payload.jti s' ≡ some (revoke_at now row, status) =
        rw h.stored (find_token-rotated now payload.jti h.user s stored) in
      let refused = rotate_row-reused later now token payload row status s' h.owned h.hashed in
      let answered = λ (done : Outcome Failure RotationOutcome × Tables).
        answer_rotation (outcome (finish none done s').0, (finish none done s').1) in
      let again =
        ap (λ d. rotate_decoded crypto settings later token d s') still
        ∙ ap (λ f. answered (rotate_row crypto settings later token payload f s')) found
        ∙ ap answered refused in
      let owner : row.user_id ≡ payload.sub = ground (arith, h.owned) in
      let revoked = rw owner at again in
      (
        ap (λ r. r.0) revoked,
        ap (λ r. any (could_rotate payload.sub) r.1.refresh_tokens) revoked
            ∙ revoked-any later payload.sub s'.refresh_tokens,
        ap (λ r. find (λ u. u.id == payload.sub) r.1.users) revoked
            ∙ find-update_self (λ u. u.id == payload.sub)
                (λ u. record u { session_version = u.session_version + 1 }) (λ u. refl) s'.users,
      )
