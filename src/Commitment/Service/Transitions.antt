-- ===== src/Commitment/Service/Transitions.antt =====
-- The transitions that move no money: `markAtRisk`, `markDefaultTriggered`,
-- `markEligibleForRefund` and `requestRefund` (services/commitment.service.ts).
use mduara_api.Prelude.{ℕ, Bool, true, false, ◌&&◌, ◌||◌, some, ◌++◌, ◌==◌, if◌then◌else◌}
use mduara_api.Prelude.Text.{Text, codes, trim, text_eq}
use mduara_api.Prelude.Outcome.{Outcome, ok, ◌>>=◌, ◌>>◌, guard, refuse, require}
use mduara_api.Commitment.Types.{
  State, at_risk, default_triggered, eligible_for_refund, refund_requested, defaulted, Deposit,
  Custody, Failure, commitment_not_found, owner_required, invalid_state, default_unresolved, Status,
  is_held, is_defaulted, map_status,
}
use mduara_api.Commitment.Service.Inputs.{Evidence, assert_transition_evidence}

abbrev pub is_at_risk : State → Bool
is_at_risk at_risk = true
is_at_risk _ = false

abbrev pub is_default_triggered : State → Bool
is_default_triggered default_triggered = true
is_default_triggered _ = false

abbrev pub is_eligible_for_refund : State → Bool
is_eligible_for_refund eligible_for_refund = true
is_eligible_for_refund _ = false

abbrev pub is_refund_requested : State → Bool
is_refund_requested refund_requested = true
is_refund_requested _ = false

abbrev pub with_deposit : Deposit → Custody → Custody
with_deposit row s = record s { deposit = some row }

abbrev pub moved : Deposit → Custody → Outcome Failure (Status × Custody)
moved row s = ok (map_status row (with_deposit row s) false, with_deposit row s)

-- `row.state === nextState && row.last_transition_reference === input.reference`
abbrev pub is_repeat : (State → Bool) → Evidence → Deposit → Bool
is_repeat next e row = next row.state && text_eq row.last_transition_reference e.reference

-- `markAtRisk`, by `transitionNonFinancial` from `held` to `at_risk`.
unfoldable pub mark_at_risk : Evidence → ℕ → Custody → Outcome Failure (Status × Custody)
mark_at_risk e now s = do
  assert_transition_evidence e
  row ← require s.deposit commitment_not_found
  if is_repeat is_at_risk e row then ok (map_status row s false, s) else do
    guard (is_held row.state) (invalid_state row.state)
    moved
        (record row {
          state = at_risk;
          at_risk_at = some now;
          last_transition_source = trim e.source;
          last_transition_reference = trim e.reference;
        })
        s

unfoldable pub mark_default_triggered : Evidence → ℕ → Custody → Outcome Failure (Status × Custody)
mark_default_triggered e now s = do
  assert_transition_evidence e
  row ← require s.deposit commitment_not_found
  if is_repeat is_default_triggered e row then ok (map_status row s false, s) else do
    guard (is_at_risk row.state) (invalid_state row.state)
    moved
        (record row {
          state = default_triggered;
          default_triggered_at = some now;
          last_transition_source = trim e.source;
          last_transition_reference = trim e.reference;
        })
        (record s { membership_status = defaulted })

unfoldable pub mark_eligible_for_refund :
    Evidence → ℕ → Custody → Outcome Failure (Status × Custody)
mark_eligible_for_refund e now s = do
  assert_transition_evidence e
  row ← require s.deposit commitment_not_found
  if is_repeat is_eligible_for_refund e row then ok (map_status row s false, s) else do
    guard (is_held row.state || is_at_risk row.state) (invalid_state row.state)
    refuse (is_defaulted s.membership_status) default_unresolved
    moved
        (record row {
          state = eligible_for_refund;
          eligible_for_refund_at = some now;
          last_transition_source = trim e.source;
          last_transition_reference = trim e.reference;
        })
        s

-- `requestRefund`, by user `user_id`; the uuid of its reference is drawn outside.
unfoldable pub request_refund : ℕ → Text → ℕ → Custody → Outcome Failure (Status × Custody)
request_refund user_id uuid now s = do
  row ← require s.deposit commitment_not_found
  guard (row.user_id == user_id) owner_required
  if is_refund_requested row.state then ok (map_status row s false, s) else do
    guard (is_eligible_for_refund row.state) (invalid_state row.state)
    refuse (is_defaulted s.membership_status) default_unresolved
    moved
        (record row {
          state = refund_requested;
          refund_requested_at = some now;
          last_transition_source = codes "member_request";
          last_transition_reference = codes "member-refund-request:" ++ uuid;
        })
        s
