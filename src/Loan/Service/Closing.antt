-- ===== src/Loan/Service/Closing.antt =====
-- `LoanService.reject` and `LoanService.recordRepaymentIntent` (services/loan.service.ts).
use mduara_api.Prelude.{
  ℕ, ◌+◌, Bool, true, false, ◌&&◌, ◌||◌, Option, none, some, [], ◌∷◌, ◌++◌, find, leb, ◌==◌,
}
use mduara_api.Prelude.Text.{Text}
use mduara_api.Prelude.Outcome.{Outcome, ok, ◌>>=◌, ◌>>◌, guard, refuse}
use mduara_api.Roles.{is_financial}
use mduara_api.Loan.Types.{
  LoanStatus, awaiting_guarantors, pending_admin_approval, partially_approved, disbursement_failed,
  active, partially_repaid, rejected, PaymentStatus, Disbursement, Db, Failure,
  reject_role_forbidden, reject_state_invalid, reconciliation_required, repay_borrower_only,
  not_repayable, repayment_exceeds_outstanding, pricing_policy_unapproved, rejected_by_leader,
  repayment_submitted,
}
use mduara_api.Loan.Queries.{
  get_active_membership, get_loan_for_update, confirmed_repayments, set_loan_status, audit,
}

abbrev pub is_rejectable : LoanStatus → Bool
is_rejectable awaiting_guarantors = true
is_rejectable pending_admin_approval = true
is_rejectable partially_approved = true
is_rejectable disbursement_failed = true
is_rejectable _ = false

abbrev pub is_disbursement_failed : LoanStatus → Bool
is_disbursement_failed disbursement_failed = true
is_disbursement_failed _ = false

-- A value that is neither null nor empty.
abbrev pub is_given : Option Text → Bool
is_given none = false
is_given (some []) = false
is_given (some (c ∷ t)) = true

abbrev pub is_dated : Option ℕ → Bool
is_dated none = false
is_dated (some t) = true

-- `dispatched?.provider_reference || dispatched?.dispatched_at`
abbrev pub was_dispatched : Option Disbursement → Bool
was_dispatched none = false
was_dispatched (some d) = is_given d.provider_reference || is_dated d.dispatched_at

unfoldable pub reject : ℕ → ℕ → Db → Outcome Failure (Unit {0} × Db)
reject user_id loan_id s = do
  loan ← get_loan_for_update loan_id s
  membership ← get_active_membership loan.chama_id user_id s
  guard (is_financial membership.role) reject_role_forbidden
  guard (is_rejectable loan.status) reject_state_invalid
  refuse
      (is_disbursement_failed loan.status
        && was_dispatched (find (λ d. d.loan_id == loan.id) s.disbursements))
      reconciliation_required
  ok (tt, audit loan.id rejected_by_leader (some user_id) (set_loan_status loan.id rejected s))

abbrev pub is_repayable : LoanStatus → Bool
is_repayable active = true
is_repayable partially_repaid = true
is_repayable _ = false

-- `recordRepaymentIntent`, of an amount that the schema has checked to be positive.
-- `amount > outstanding` is written without the subtraction, which may be negative.
unfoldable pub record_repayment_intent : Bool → ℕ → ℕ → ℕ → Db → Outcome Failure (Unit {0} × Db)
record_repayment_intent production user_id loan_id amount s = do
  refuse production pricing_policy_unapproved
  loan ← get_loan_for_update loan_id s
  membership ← get_active_membership loan.chama_id user_id s
  guard (membership.id == loan.member_id) repay_borrower_only
  guard (is_repayable loan.status) not_repayable
  guard (leb (amount + confirmed_repayments loan.id s) loan.total_due) repayment_exceeds_outstanding
  ok (
    tt,
    audit loan.id repayment_submitted (some user_id) (record s {
      repayments =
          s.repayments
          ++ record { loan_id = loan.id; amount = amount; status = PaymentStatus.pending } ∷ [];
    }),
  )
