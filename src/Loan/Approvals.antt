-- ===== src/Loan/Approvals.antt =====
-- What the approvals of a loan require (`approve`, services/loan.service.ts).
use mduara_api.Prelude.{
  ℕ, ◌-◌, ◌≤◌, ◌≡◌, ◌≢◌, refl, Bool, true, Option, none, some, List, arith, update_where, ◌==◌, inl,
  inr, Bool-cases, Option-cases, find-update_where, find-true,
}
use mduara_api.Prelude.Text.{Text}
use mduara_api.Prelude.Outcome.{ok, err, >>=-eq-ok}
use mduara_api.Ledger.Triggers.{pooled}
use mduara_api.Roles.{Role, role_eq, chairperson}
use mduara_api.Loan.Types.{
  LoanStatus, partially_approved, disbursement_pending, disbursement_failed, failed, Loan, Rule,
  Member, Db, payout_dispatch_failed, dispatch_failed, pending_admin_approval,
}
use mduara_api.Loan.Queries.{
  find_loan, get_active_membership, get_active_loan_rule, is_collateralised, reserved_funds,
  coverage_amount, approved_count, audit, set_loan_status, get_loan_for_update,
}
use mduara_api.Loan.Transitions.{Follows, approve-Moves}
use mduara_api.Loan.Service.{
  Decision, Dispatch, approve, approve_from, approve_as_chairperson, treasurer_has_approved,
  fail_disbursement, record_dispatch_failure, approve_and_dispatch,
}

approve_from-pending :
    (status : LoanStatus) (production : Bool) (user_id : ℕ) (role : Role) (loan : Loan) (s : Db)
    {decision : Decision} {s' : Db}
    → approve_from status production user_id role loan s ≡ ok (decision, s')
    → decision.status ≡ disbursement_pending
    → (status ≡ partially_approved)
      × (approve_as_chairperson production user_id role loan s ≡ ok (decision, s'))
unfolding approve_from
approve_from-pending pending_admin_approval production user_id role loan s h pending = ground arith
approve_from-pending partially_approved production user_id role loan s h pending = (refl, h)
approve_from-pending _ production user_id role loan s h pending = cc

approve_as_chairperson-checks :
    (production : Bool) (user_id : ℕ) (role : Role) (loan : Loan) (s : Db) {decision : Decision}
    {s' : Db}
    → approve_as_chairperson production user_id role loan s ≡ ok (decision, s')
    → (treasury : ℕ) × (role_eq role chairperson ≡ true)
      × (treasurer_has_approved loan.id s ≡ true)
      × (pooled loan.chama_id s.ledger.chamas ≡ some treasury)
      × (loan.principal_amount ≤ treasury - reserved_funds loan.chama_id loan.id s)
unfolding approve_as_chairperson
approve_as_chairperson-checks production user_id role loan s h =
    elim (Option-cases (pooled loan.chama_id s.ledger.chamas)) [
      | inl none_eq ↦ ground (arith, none_eq, h)
      | inr (treasury, t) ↦
          (treasury, ground (arith, h), ground (arith, h), t, ground (arith, t, h))
    ]

-- Whoever approves a loan as it leaves for the payout is the chairperson of its chama, after its
-- treasurer, when the approved pledges cover the principal and are enough in number, and the
-- principal is at most what the treasury holds less what other pending payouts have reserved (0
-- if they have reserved more than it holds).
pub approve-checks :
    (production : Bool) (user_id loan_id : ℕ) (s : Db) {decision : Decision} {s' : Db}
    → approve production user_id loan_id s ≡ ok (decision, s')
    → decision.status ≡ disbursement_pending
    → (loan : Loan) × (rule : Rule) × (m : Member) × (treasury : ℕ) × (find_loan loan_id s.loans
        ≡ some loan)
      × (loan.status ≡ partially_approved)
      × (get_active_membership loan.chama_id user_id s ≡ ok m)
      × (role_eq m.role chairperson ≡ true)
      × (treasurer_has_approved loan.id s ≡ true)
      × (get_active_loan_rule loan.chama_id s ≡ ok rule)
      × (loan.principal_amount ≤ coverage_amount loan.id s.guarantees)
      × (rule.min_guarantors ≤ approved_count loan.id s.guarantees)
      × (pooled loan.chama_id s.ledger.chamas ≡ some treasury)
      × (loan.principal_amount ≤ treasury - reserved_funds loan.chama_id loan.id s)
unfolding approve
approve-checks production user_id loan_id s {decision} h pending =
    let (loan, a, x) = >>=-eq-ok (get_loan_for_update loan_id s) _ h in
    let (m, b, y) = >>=-eq-ok (get_active_membership loan.chama_id user_id s) _ x in
    let (rule, c, z) = >>=-eq-ok (get_active_loan_rule loan.chama_id s) _ y in
    elim (Bool-cases (is_collateralised loan rule s.guarantees)) [
      | inl cov ↦
          let (st, w) =
            approve_from-pending loan.status production user_id m.role loan s (rw cov at z)
              pending in
          let (treasury, ch, tr, t, en) =
            approve_as_chairperson-checks production user_id m.role loan s w in
          (
            loan,
            rule,
            m,
            treasury,
            ground (arith, a),
            st,
            b,
            ch,
            tr,
            c,
            ground (arith, cov),
            ground (arith, cov),
            t,
            en,
          )
      | inr cov ↦ ground (arith, cov, z)
    ]

set_status-found :
    (loan_id : ℕ) (status : LoanStatus) (loans : List Loan) (loan : Loan)
    → find_loan loan_id loans ≡ some loan
    → find_loan loan_id
        (update_where (λ l. l.id == loan_id) (λ l. record l { status = status }) loans)
      ≡ some (record loan { status = status })
set_status-found loan_id status loans loan found =
    rw
      (
        find-update_where (λ l. l.id == loan_id) (λ l. l.id == loan_id)
            (λ l. record l { status = status }) (λ l. refl) loans,
        found,
        find-true (λ l. l.id == loan_id) loans found,
      )
      refl

approve-loan :
    (production : Bool) (user_id loan_id : ℕ) (s : Db) {decision : Decision} {s' : Db}
    → approve production user_id loan_id s ≡ ok (decision, s')
    → (loan : Loan) × (find_loan loan_id s.loans ≡ some loan)
unfolding approve
approve-loan production user_id loan_id s h =
    let (loan, a, x) = >>=-eq-ok (get_loan_for_update loan_id s) _ h in (loan, ground (arith, a))

Follows-none : (loan : Loan) → Follows (some loan) none → ⊥
Follows-none loan h = h

-- A loan that is approved is there, and is there afterwards.
approve-found :
    (production : Bool) (user_id loan_id : ℕ) (s : Db) {decision : Decision} {s' : Db}
    → approve production user_id loan_id s ≡ ok (decision, s')
    → find_loan loan_id s'.loans ≢ none
approve-found production user_id loan_id s h gone =
    let (loan, f) = approve-loan production user_id loan_id s h in
    Follows-none loan (rw (h, f, gone) at (approve-Moves loan_id s production user_id loan_id))

module _ (user_id loan_id : ℕ) (s : Db) (loan : Loan)
    (found : find_loan loan_id s.loans ≡ some loan) where
  record_dispatch_failure-marks :
      (u : Unit {0}) × (t : Db) × (record_dispatch_failure user_id loan_id s ≡ ok (u, t))
      × (find_loan loan_id t.loans ≡ some (record loan { status = disbursement_failed }))
      × (t.disbursements
          ≡ update_where
              (λ d. d.loan_id == loan_id)
              (λ d. record d { status = failed })
              s.disbursements)
      × (t.ledger ≡ s.ledger)
  unfolding record_dispatch_failure
  record_dispatch_failure-marks = (
    tt,
    audit loan_id dispatch_failed (some user_id)
        (set_loan_status loan_id disbursement_failed (fail_disbursement loan_id s)),
    ground (arith, found),
    set_status-found loan_id disbursement_failed s.loans loan found,
    refl,
    refl,
  )

-- If the gateway refuses the payout of an approved loan, the approval is answered with an error,
-- the loan and its disbursement are marked as failed, and the ledger is as the approval left it.
pub approve_and_dispatch-refused :
    (gateway : Dispatch → Option Text) (production : Bool) (user_id loan_id now : ℕ) (s : Db)
    {decision : Decision} {s' : Db} {payout : Dispatch}
    → approve production user_id loan_id s ≡ ok (decision, s')
    → decision.dispatch ≡ some payout
    → gateway payout ≡ none
    → (loan : Loan) × (t : Db) × (approve_and_dispatch gateway production user_id loan_id now s
        ≡ (err payout_dispatch_failed, t))
      × (find_loan loan_id t.loans ≡ some (record loan { status = disbursement_failed }))
      × (t.disbursements
          ≡ update_where
              (λ d. d.loan_id == loan_id)
              (λ d. record d { status = failed })
              s'.disbursements)
      × (t.ledger ≡ s'.ledger)
unfolding approve_and_dispatch
approve_and_dispatch-refused gateway production user_id loan_id now s {s' = s'} h dispatch refused =
    elim (Option-cases (find_loan loan_id s'.loans)) [
      | inl gone ↦ absurd (approve-found production user_id loan_id s h gone)
      | inr (loan, found) ↦
          let (u, t, x, l, ds, led) = record_dispatch_failure-marks user_id loan_id s' loan found in
          (loan, t, ground (arith, h, dispatch, refused, x), l, ds, led)
    ]
