-- ===== src/Commitment/Service/Settlement.antt =====
-- The terminal operations: `confirmRefundFromProvider` and `forfeitFromRule`
-- (services/commitment.service.ts).
use mduara_api.Prelude.{ℕ, ◌+◌, Bool, true, false, ◌&&◌, some, ◌==◌, if◌then◌else◌}
use mduara_api.Prelude.Int.{ℤ}
use mduara_api.Prelude.Text.{codes, trim, text_eq}
use mduara_api.Prelude.Outcome.{Outcome, ok, err, ◌>>=◌, ◌>>◌, guard, refuse, require}
use mduara_api.Commitment.Types.{
  State, forfeited, partial_forfeit, refunded, refund_requested, Deposit, Custody, Failure,
  commitment_not_found, refunded_by_other_transaction, invalid_state, amount_mismatch,
  default_unresolved, partial_forfeiture_disabled, Status, is_defaulted, map_status,
}
use mduara_api.Commitment.Service.Inputs.{
  Confirmation, Evidence, assert_provider_evidence, assert_transition_evidence, positive_amount,
  column_eq, or_now, refund, forfeit, commitment_ledger_reference, insert_commitment_journal,
}
use mduara_api.Commitment.Service.Transitions.{is_default_triggered}

-- `amount - refunded_amount - forfeited_amount === n`, on integers.
abbrev pub is_remaining : Deposit → ℕ → Bool
is_remaining row n = n + row.refunded_amount + row.forfeited_amount == row.amount

abbrev pub refunded_row : Confirmation → ℕ → ℕ → ℕ → Deposit → Deposit
refunded_row c n ledger_id now row = record row {
  state = refunded;
  refunded_amount = row.refunded_amount + n;
  terminal_provider = some (trim c.provider);
  terminal_provider_reference = some (trim c.provider_reference);
  terminal_ledger_transaction_id = some ledger_id;
  refunded_at = some (or_now c.occurred_at now);
  last_transition_source = codes "provider_refund_confirmation";
  last_transition_reference = trim c.provider_reference;
}

abbrev pub replay_refund : Confirmation → ℕ → Deposit → Custody → Outcome Failure (Status × Custody)
replay_refund c n row s =
    if column_eq row.terminal_provider c.provider
      && column_eq row.terminal_provider_reference c.provider_reference
      && row.refunded_amount == n
    then ok (map_status row s true, s)
    else err refunded_by_other_transaction

unfoldable pub pay_refund :
    Confirmation → ℕ → ℕ → Deposit → Custody → Outcome Failure (Status × Custody)
pay_refund c n now row s = do
  refuse (is_defaulted s.membership_status) default_unresolved
  guard (is_remaining row n) amount_mismatch
  posted ←
      insert_commitment_journal refund
        (commitment_ledger_reference refund c.provider c.provider_reference) row n s.ledger
  let row' = refunded_row c n posted.0 now row
  let s' = record s { deposit = some row'; ledger = posted.1 }
  ok (map_status row' s' false, s')

unfoldable pub refund_from :
    State → Confirmation → ℕ → ℕ → Deposit → Custody → Outcome Failure (Status × Custody)
unfolding pay_refund
refund_from refunded c n now row s = replay_refund c n row s
refund_from refund_requested c n now row s = pay_refund c n now row s
refund_from state c n now row s = err (invalid_state state)

unfoldable pub confirm_refund_from_provider :
    Confirmation → ℕ → Custody → Outcome Failure (Status × Custody)
unfolding assert_provider_evidence refund_from
confirm_refund_from_provider c now s = do
  n ← assert_provider_evidence c
  row ← require s.deposit commitment_not_found
  refund_from row.state c n now row s

abbrev pub is_forfeited : State → Bool
is_forfeited forfeited = true
is_forfeited partial_forfeit = true
is_forfeited _ = false

abbrev pub forfeited_row : Evidence → ℕ → ℕ → ℕ → Deposit → Deposit
forfeited_row e n ledger_id now row = record row {
  state = forfeited;
  forfeited_amount = row.forfeited_amount + n;
  terminal_provider = some (codes "rules_engine");
  terminal_provider_reference = some (trim e.reference);
  terminal_ledger_transaction_id = some ledger_id;
  forfeited_at = some now;
  last_transition_source = trim e.source;
  last_transition_reference = trim e.reference;
}

unfoldable pub forfeit_from_rule : Evidence → ℤ → ℕ → Custody → Outcome Failure (Status × Custody)
forfeit_from_rule e amount now s = do
  assert_transition_evidence e
  n ← positive_amount amount
  row ← require s.deposit commitment_not_found
  if is_forfeited row.state && text_eq row.last_transition_reference e.reference
      then ok (map_status row s true, s)
      else do
        guard (is_default_triggered row.state) (invalid_state row.state)
        guard (is_remaining row n) partial_forfeiture_disabled
        posted ←
            insert_commitment_journal forfeit
              (commitment_ledger_reference forfeit (codes "rules_engine") e.reference) row n
              s.ledger
        let row' = forfeited_row e n posted.0 now row
        let s' = record s { deposit = some row'; ledger = posted.1 }
        ok (map_status row' s' false, s')
