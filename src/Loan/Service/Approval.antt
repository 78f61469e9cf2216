-- ===== src/Loan/Service/Approval.antt =====
-- `LoanService.approve` (services/loan.service.ts): the decision in its first transaction, the
-- dispatch to the payout gateway, and the transactions that record how that went.
use mduara_api.Prelude.{
  ℕ, Bool, true, false, ◌&&◌, Option, none, some, List, [], ◌∷◌, ◌++◌, find, any, update_where,
  ◌==◌, if◌then◌else◌,
}
use mduara_api.Prelude.Text.{Text}
use mduara_api.Prelude.Outcome.{Outcome, ok, err, ◌>>=◌, ◌>>◌, guard, refuse, require}
use mduara_api.Roles.{Role, treasurer, chairperson, role_eq}
use mduara_api.Loan.Types.{
  LoanStatus, pending_admin_approval, partially_approved, disbursement_pending, disbursement_failed,
  PaymentStatus, failed, Member, Loan, Disbursement, Action, treasurer_approved, chair_approved,
  dispatched, dispatch_failed, Db, Failure, collateral_incomplete, treasurer_approval_required,
  chair_approval_required, disbursement_policy_unapproved, treasurer_approval_missing,
  payout_phone_missing, approval_state_invalid, disbursement_state_invalid, payout_dispatch_failed,
}
use mduara_api.Loan.Queries.{
  get_active_membership, get_loan_for_update, get_active_loan_rule, is_collateralised,
  assert_treasury_available, is_pending_payment, set_loan_status, audit,
}

pub record Dispatch : Type 0 where
  pub amount : ℕ
  pub phone_number : Text
  pub reference : ℕ

pub record Decision : Type 0 where
  pub status : LoanStatus
  pub dispatch : Option Dispatch

abbrev pub is_treasurer_approved : Action → Bool
is_treasurer_approved treasurer_approved = true
is_treasurer_approved _ = false

abbrev pub is_on_loan : ℕ → Option ℕ → Bool
is_on_loan loan_id none = false
is_on_loan loan_id (some id) = id == loan_id

abbrev pub treasurer_has_approved : ℕ → Db → Bool
treasurer_has_approved loan_id s =
    any (λ a. is_on_loan loan_id a.loan_id && is_treasurer_approved a.action) s.audits

-- `loan.phone`, from the join of the borrower; an empty one is refused like a missing one.
abbrev pub join_phone : Option Member → Option Text
join_phone none = none
join_phone (some m) = m.phone

abbrev pub given : Option Text → Option Text
given (some []) = none
given phone = phone

abbrev pub borrower_phone : Loan → Db → Option Text
borrower_phone loan s = given (join_phone (find (λ m. m.id == loan.member_id) s.members))

abbrev pub pending_disbursement : Loan → Disbursement
pending_disbursement loan = record {
  loan_id = loan.id;
  amount = loan.principal_amount;
  status = PaymentStatus.pending;
  provider_reference = none;
  dispatched_at = none;
}

-- `INSERT … ON CONFLICT (loan_id) DO UPDATE`: every column is given anew.
abbrev pub upsert_disbursement : Loan → List Disbursement → List Disbursement
upsert_disbursement loan ds =
    if any (λ d. d.loan_id == loan.id) ds
    then update_where (λ d. d.loan_id == loan.id) (λ d. pending_disbursement loan) ds
    else ds ++ pending_disbursement loan ∷ []

unfoldable pub approve_as_treasurer : ℕ → Role → Loan → Db → Outcome Failure (Decision × Db)
approve_as_treasurer user_id role loan s = do
  guard (role_eq role treasurer) treasurer_approval_required
  ok (
    record { status = partially_approved; dispatch = none },
    audit loan.id treasurer_approved (some user_id) (set_loan_status loan.id partially_approved s),
  )

unfoldable pub approve_as_chairperson :
    Bool → ℕ → Role → Loan → Db → Outcome Failure (Decision × Db)
unfolding assert_treasury_available
approve_as_chairperson production user_id role loan s = do
  guard (role_eq role chairperson) chair_approval_required
  refuse production disbursement_policy_unapproved
  guard (treasurer_has_approved loan.id s) treasurer_approval_missing
  phone ← require (borrower_phone loan s) payout_phone_missing
  assert_treasury_available loan.chama_id loan.id loan.principal_amount s
  let t = set_loan_status loan.id disbursement_pending s
  ok (
    record {
      status = disbursement_pending;
      dispatch =
          some
            (record { amount = loan.principal_amount; phone_number = phone; reference = loan.id });
    },
    audit loan.id chair_approved (some user_id)
        (record t { disbursements = upsert_disbursement loan t.disbursements }),
  )

unfoldable pub approve_from :
    LoanStatus → Bool → ℕ → Role → Loan → Db → Outcome Failure (Decision × Db)
unfolding approve_as_treasurer approve_as_chairperson
approve_from pending_admin_approval production user_id role loan s =
    approve_as_treasurer user_id role loan s
approve_from partially_approved production user_id role loan s =
    approve_as_chairperson production user_id role loan s
approve_from status production user_id role loan s = err approval_state_invalid

unfoldable pub approve : Bool → ℕ → ℕ → Db → Outcome Failure (Decision × Db)
unfolding approve_from
approve production user_id loan_id s = do
  loan ← get_loan_for_update loan_id s
  membership ← get_active_membership loan.chama_id user_id s
  rule ← get_active_loan_rule loan.chama_id s
  guard (is_collateralised loan rule s.guarantees) collateral_incomplete
  approve_from loan.status production user_id membership.role loan s

-- The second transaction, after the gateway has accepted the payout.
unfoldable pub record_dispatch : ℕ → ℕ → Text → ℕ → Db → Outcome Failure (Unit {0} × Db)
record_dispatch user_id loan_id provider_reference now s = do
  guard (any (λ d. d.loan_id == loan_id && is_pending_payment d.status) s.disbursements)
      disbursement_state_invalid
  loan ← get_loan_for_update loan_id s
  ok (
    tt,
    audit loan_id dispatched (some user_id) (record s {
      disbursements =
          update_where (λ d. d.loan_id == loan_id && is_pending_payment d.status)
            (λ d. record d {
              provider_reference = some provider_reference;
              dispatched_at = some now;
            })
            s.disbursements;
    }),
  )

abbrev pub fail_disbursement : ℕ → Db → Db
fail_disbursement loan_id s = record s {
  disbursements =
      update_where (λ d. d.loan_id == loan_id) (λ d. record d { status = failed }) s.disbursements;
}

-- The transaction of the `catch`.
unfoldable pub record_dispatch_failure : ℕ → ℕ → Db → Outcome Failure (Unit {0} × Db)
record_dispatch_failure user_id loan_id s = do
  loan ← get_loan_for_update loan_id s
  ok (
    tt,
    audit loan_id dispatch_failed (some user_id)
        (set_loan_status loan_id disbursement_failed (fail_disbursement loan_id s)),
  )

abbrev pub state_or : {A : Type 0} → Outcome Failure (A × Db) → Db → Db
state_or (ok (a, s')) s = s'
state_or (err e) s = s

abbrev pub after_dispatch :
    ℕ → ℕ → Decision → Outcome Failure (Unit {0} × Db) → Db → Outcome Failure Decision × Db
after_dispatch user_id loan_id decision (ok (u, s'')) s' = (ok decision, s'')
after_dispatch user_id loan_id decision (err e) s' =
    (err e, state_or (record_dispatch_failure user_id loan_id s') s')

-- The answer of the gateway: the provider's reference, or nothing if the dispatch threw.
abbrev pub settle : ℕ → ℕ → ℕ → Decision → Option Text → Db → Outcome Failure Decision × Db
settle user_id loan_id now decision (some reference) s' =
    after_dispatch user_id loan_id decision (record_dispatch user_id loan_id reference now s') s'
settle user_id loan_id now decision none s' =
    (err payout_dispatch_failed, state_or (record_dispatch_failure user_id loan_id s') s')

abbrev pub dispatch_decision :
    (Dispatch → Option Text)
    → ℕ
    → ℕ
    → ℕ
    → Decision
    → Option Dispatch
    → Db
    → Outcome Failure Decision × Db
dispatch_decision gateway user_id loan_id now decision none s' = (ok decision, s')
dispatch_decision gateway user_id loan_id now decision (some d) s' =
    settle user_id loan_id now decision (gateway d) s'

abbrev pub after_decision :
    (Dispatch → Option Text)
    → ℕ
    → ℕ
    → ℕ
    → Outcome Failure (Decision × Db)
    → Db
    → Outcome Failure Decision × Db
after_decision gateway user_id loan_id now (err e) s = (err e, s)
after_decision gateway user_id loan_id now (ok (decision, s')) s =
    dispatch_decision gateway user_id loan_id now decision decision.dispatch s'

-- The whole of `approve`, with nothing else running between its transactions. The first one is
-- committed before the gateway is called, so the tables come back beside an error too.
unfoldable pub approve_and_dispatch :
    (Dispatch → Option Text) → Bool → ℕ → ℕ → ℕ → Db → Outcome Failure Decision × Db
approve_and_dispatch gateway production user_id loan_id now s =
    after_decision gateway user_id loan_id now (approve production user_id loan_id s) s
