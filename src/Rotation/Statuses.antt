-- ===== src/Rotation/Statuses.antt =====
-- What the tests on statuses and roles of services/mgr.service.ts say, written out.
use mduara_api.Prelude.{
  ℕ, ◌+◌, ◌≤◌, ◌≡◌, ◌⊎◌, refl, Bool, true, false, not, ◌&&◌, ◌||◌, List, [], ◌∷◌, all, any, ltb,
  ◌==◌, arith, inl, inr,
}
use mduara_api.Roles.{Role, member, treasurer, secretary, chairperson}
use mduara_api.Rotation.Types.{
  CycleStatus, active, completed, TurnStatus, scheduled, disbursement_pending, paid, skipped,
  disputed, AttemptStatus, dispatched, confirmed, failed, timed_out, Cycle, Turn, Attempt,
}
use mduara_api.Rotation.Service.{
  is_active_cycle, is_scheduled, is_swappable, may_pay_out, is_unresolved, last_attempt_no,
}

pub is_active_cycle-active :
    (status : CycleStatus) → is_active_cycle status ≡ true → status ≡ active
is_active_cycle-active active e = refl
is_active_cycle-active completed e = cc
is_active_cycle-active CycleStatus.cancelled e = cc

pub is_scheduled-scheduled : (status : TurnStatus) → is_scheduled status ≡ true → status ≡ scheduled
is_scheduled-scheduled scheduled e = refl
is_scheduled-scheduled disbursement_pending e = cc
is_scheduled-scheduled paid e = cc
is_scheduled-scheduled skipped e = cc
is_scheduled-scheduled disputed e = cc

-- A turn that may be swapped is scheduled, and no turn of the past.
pub is_swappable-ahead :
    (cycle : Cycle) (t : Turn)
    → is_swappable cycle t ≡ true
    → (t.status ≡ scheduled) × (cycle.current_position ≤ t.rotation_position)
is_swappable-ahead cycle t h =
    (is_scheduled-scheduled t.status (ground (arith, h)), ground (arith, h))

pub may_pay_out-role :
    (role : Role) → may_pay_out role ≡ true → (role ≡ chairperson) ⊎ (role ≡ treasurer)
may_pay_out-role chairperson e = inl refl
may_pay_out-role treasurer e = inr refl
may_pay_out-role secretary e = cc
may_pay_out-role member e = cc

-- An attempt that has ended: the payout is made, or it has failed.
abbrev pub has_ended : AttemptStatus → Bool
has_ended confirmed = true
has_ended failed = true
has_ended _ = false

ended : (status : AttemptStatus) → is_unresolved status ≡ false → has_ended status ≡ true
ended AttemptStatus.pending e = cc
ended dispatched e = cc
ended timed_out e = cc
ended confirmed e = refl
ended failed e = refl

pub no_unresolved :
    (payout_id : ℕ) (attempts : List Attempt)
    → any (λ a. a.payout_id == payout_id && is_unresolved a.status) attempts ≡ false
    → all (λ a. not (a.payout_id == payout_id) || has_ended a.status) attempts ≡ true
no_unresolved payout_id [] h = refl
no_unresolved payout_id (a ∷ others) h =
    ground (arith, h, ended a.status, no_unresolved payout_id others)

numbered_upto :
    (payout_id n : ℕ) (attempts : List Attempt)
    → last_attempt_no payout_id attempts ≤ n
    → all (λ a. not (a.payout_id == payout_id) || ltb a.attempt_no (n + 1)) attempts ≡ true
numbered_upto payout_id n [] h = refl
numbered_upto payout_id n (a ∷ others) h = ground (arith, h, numbered_upto payout_id n others)

-- The number of the next attempt is above those of the attempts that there are.
pub numbered_above :
    (payout_id : ℕ) (attempts : List Attempt)
    → all
        (λ a.
          not (a.payout_id == payout_id)
          || ltb a.attempt_no (last_attempt_no payout_id attempts + 1))
        attempts
      ≡ true
numbered_above payout_id attempts =
    numbered_upto payout_id (last_attempt_no payout_id attempts) attempts (omega arith)
