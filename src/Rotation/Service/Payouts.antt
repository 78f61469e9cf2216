-- ===== src/Rotation/Service/Payouts.antt =====
-- `disburse` (services/mgr.service.ts): the request in its first transaction, and the
-- transactions that record how the payout gateway answered.
use mduara_api.Prelude.{
  ℕ, ◌+◌, Bool, true, false, ◌&&◌, Option, none, some, List, [], ◌∷◌, ◌++◌, find, any, update_where,
  ltb, leb, ◌==◌, if◌then◌else◌,
}
use mduara_api.Prelude.Text.{Text}
use mduara_api.Prelude.Outcome.{Outcome, ok, ◌>>=◌, ◌>>◌, guard, refuse, require}
use mduara_api.Ledger.Triggers.{pooled}
use mduara_api.Roles.{Role, chairperson, treasurer}
use mduara_api.Rotation.Types.{
  TurnStatus, AttemptStatus, Cycle, Turn, Attempt, Member, Tables, Failure, scheduled,
  disbursement_pending, dispatched, timed_out, failed, cycle_not_active, disburse_forbidden,
  current_turn_not_found, payout_state_invalid, payout_phone_missing, attempt_unresolved,
  treasury_insufficient, dispatch_race,
}
use mduara_api.Rotation.Service.Swaps.{
  require_cycle, assert_write_access, require_active_membership, is_active_cycle, is_scheduled,
}

-- `PAYOUT_ROLES`
abbrev pub may_pay_out : Role → Bool
may_pay_out chairperson = true
may_pay_out treasurer = true
may_pay_out _ = false

abbrev pub is_unresolved : AttemptStatus → Bool
is_unresolved AttemptStatus.pending = true
is_unresolved dispatched = true
is_unresolved timed_out = true
is_unresolved _ = false

abbrev pub given_phone : Option Text → Option Text
given_phone (some []) = none
given_phone phone = phone

-- `COALESCE(MAX(attempt_no), 0)`
abbrev pub last_attempt_no : ℕ → List Attempt → ℕ
last_attempt_no payout_id [] = 0
last_attempt_no payout_id (a ∷ others) =
    let rest = last_attempt_no payout_id others in
    if a.payout_id == payout_id && ltb rest a.attempt_no then a.attempt_no else rest

abbrev pub set_turn_status : ℕ → (TurnStatus → Bool) → TurnStatus → Tables → Tables
set_turn_status id from status s = record s {
  turns =
      update_where (λ t. t.id == id && from t.status) (λ t. record t { status = status }) s.turns;
}

abbrev pub any_status : TurnStatus → Bool
any_status status = true

abbrev pub new_attempt : ℕ → Turn → List Attempt → Attempt
new_attempt id turn attempts = record {
  id = id;
  payout_id = turn.id;
  attempt_no = last_attempt_no turn.id attempts + 1;
  amount = turn.payout_amount;
  status = AttemptStatus.pending;
  provider_reference = none;
  receipt = none;
}

abbrev pub covers : Option ℕ → ℕ → Bool
covers none amount = false
covers (some pooled_amount) amount = leb amount pooled_amount

-- The turn at the current position, of a member that is active.
abbrev pub current_turn : Cycle → Tables → Option (Turn × Member)
current_turn cycle s =
    elim (find (λ t. t.cycle_id == cycle.id && t.rotation_position == cycle.current_position)
      s.turns) [
        | none ↦ none
        | some t ↦ elim (find (λ m. m.id == t.member_id && m.is_active) s.members) [
          | none ↦ none
          | some m ↦ some (t, m)
        ]
      ]

-- The result is the attempt, with the phone number to pay to.
unfoldable pub request_payout : ℕ → ℕ → Tables → Outcome Failure ((Attempt × Text) × Tables)
request_payout user_id cycle_id s = do
  cycle ← require_cycle cycle_id s
  assert_write_access cycle.chama_id s
  guard (is_active_cycle cycle.status) cycle_not_active
  official ← require_active_membership cycle.chama_id user_id s
  guard (may_pay_out official.role) disburse_forbidden
  current ← require (current_turn cycle s) current_turn_not_found
  guard (is_scheduled current.0.status) payout_state_invalid
  phone ← require (given_phone current.1.phone) payout_phone_missing
  refuse (any (λ a. a.payout_id == current.0.id && is_unresolved a.status) s.attempts)
      attempt_unresolved
  guard (covers (pooled cycle.chama_id s.ledger.chamas) current.0.payout_amount)
      treasury_insufficient
  let attempt = new_attempt s.next_id current.0 s.attempts
  ok (
    (attempt, phone),
    set_turn_status current.0.id any_status disbursement_pending
        (record s { attempts = s.attempts ++ attempt ∷ []; next_id = s.next_id + 1 }),
  )

abbrev pub is_fresh : AttemptStatus → Bool
is_fresh AttemptStatus.pending = true
is_fresh _ = false

abbrev pub is_undispatched : Attempt → Bool
is_undispatched a = elim a.provider_reference [ none ↦ is_fresh a.status | some r ↦ false ]

-- The gateway has accepted the payout.
unfoldable pub record_provider_dispatch : ℕ → Text → Tables → Outcome Failure (Unit {0} × Tables)
record_provider_dispatch attempt_id reference s = do
  guard (any (λ a. a.id == attempt_id && is_undispatched a) s.attempts) dispatch_race
  ok (
    tt,
    record s {
      attempts =
          update_where (λ a. a.id == attempt_id && is_undispatched a)
            (λ a. record a { status = dispatched; provider_reference = some reference }) s.attempts;
    },
  )

abbrev pub is_pending_payout : TurnStatus → Bool
is_pending_payout disbursement_pending = true
is_pending_payout _ = false

abbrev pub has_reference : Attempt → Bool
has_reference a = elim a.provider_reference [
  | none ↦ false
  | some r ↦ elim r [ [] ↦ false | c ∷ t ↦ true ]
]

abbrev pub undo_attempt : Option Attempt → Tables → Tables
undo_attempt none s = s
undo_attempt (some a) s =
    if has_reference a
    then s
    else set_turn_status a.payout_id is_pending_payout scheduled (record s {
      attempts = update_where (λ b. b.id == a.id) (λ b. record b { status = failed }) s.attempts;
    })

-- The gateway has refused, or its answer could not be recorded.
unfoldable pub undo_payout : ℕ → Tables → Tables
undo_payout attempt_id s = undo_attempt (find (λ a. a.id == attempt_id) s.attempts) s
