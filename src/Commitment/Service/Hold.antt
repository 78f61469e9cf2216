-- ===== src/Commitment/Service/Hold.antt =====
-- `confirmHoldFromProvider` (services/commitment.service.ts).
use mduara_api.Prelude.{ℕ, true, false, ◌&&◌, some, ◌==◌, if◌then◌else◌}
use mduara_api.Prelude.Text.{codes, trim}
use mduara_api.Prelude.Outcome.{Outcome, ok, err, ◌>>=◌, ◌>>◌, guard, require}
use mduara_api.Commitment.Types.{
  State, applied, held, active, approved, Deposit, Custody, Failure, commitment_not_found,
  held_by_other_transaction, invalid_state, commitment_not_pending, constitution_not_accepted,
  membership_state_invalid, amount_mismatch, Status, is_pending, is_commitment_pending, map_status,
}
use mduara_api.Commitment.Service.Inputs.{
  Confirmation, assert_provider_evidence, column_eq, or_now, hold, commitment_ledger_reference,
  insert_commitment_journal,
}

-- The row after the UPDATE that records the hold.
abbrev pub held_row : Confirmation → ℕ → ℕ → Deposit → Deposit
held_row c ledger_id now row = record row {
  state = held;
  provider = some (trim c.provider);
  provider_reference = some (trim c.provider_reference);
  hold_ledger_transaction_id = some ledger_id;
  held_at = some (or_now c.occurred_at now);
  last_transition_source = codes "provider_confirmation";
  last_transition_reference = trim c.provider_reference;
}

-- A deposit that is held already: a replay of the same confirmation, or a conflict.
abbrev pub replay_hold : Confirmation → ℕ → Deposit → Custody → Outcome Failure (Status × Custody)
replay_hold c n row s =
    if column_eq row.provider c.provider
      && column_eq row.provider_reference c.provider_reference
      && row.amount == n
    then ok (map_status row s true, s)
    else err held_by_other_transaction

unfoldable pub take_hold :
    Confirmation → ℕ → ℕ → Deposit → Custody → Outcome Failure (Status × Custody)
take_hold c n now row s = do
  guard (is_commitment_pending s.application_status) commitment_not_pending
  guard s.constitution_accepted constitution_not_accepted
  guard (is_pending s.membership_status) membership_state_invalid
  guard (row.amount == n) amount_mismatch
  posted ←
      insert_commitment_journal hold
        (commitment_ledger_reference hold c.provider c.provider_reference) row n s.ledger
  let row' = held_row c posted.0 now row
  let s' = record s {
    deposit = some row';
    membership_status = active;
    application_status = approved;
    ledger = posted.1;
  }
  ok (map_status row' s' false, s')

unfoldable pub hold_from :
    State → Confirmation → ℕ → ℕ → Deposit → Custody → Outcome Failure (Status × Custody)
unfolding take_hold
hold_from held c n now row s = replay_hold c n row s
hold_from applied c n now row s = take_hold c n now row s
hold_from state c n now row s = err (invalid_state state)

unfoldable pub confirm_hold_from_provider :
    Confirmation → ℕ → Custody → Outcome Failure (Status × Custody)
unfolding assert_provider_evidence hold_from
confirm_hold_from_provider c now s = do
  n ← assert_provider_evidence c
  row ← require s.deposit commitment_not_found
  hold_from row.state c n now row s
