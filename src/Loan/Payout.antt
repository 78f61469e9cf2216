-- ===== src/Loan/Payout.antt =====
-- What the provider's results do to a loan, its disbursement and the ledger
-- (`processB2CResult`, services/loan.service.ts).
use mduara_api.Prelude.{
  ℕ, ◌≡◌, ◌⊎◌, refl, true, false, ◌&&◌, none, some, ◌++◌, arith, find, update_where, ◌==◌,
  if◌then◌else◌, inl, inr, find-update_where, Option-cases, Bool-cases, ==_refl,
}
use mduara_api.Prelude.Int.{ℤ, pos}
use mduara_api.Prelude.Text.{Text, is_empty, codes}
use mduara_api.Prelude.Outcome.{ok, Outcome-cases}
use mduara_api.Ledger.Types.{
  OperationResult, BaseOperation, PreparedOperation, member_loan_principal, debit,
}
use mduara_api.Ledger.Operations.{payout_operation, member_counter_entry}
use mduara_api.Ledger.Calls.{Call, run}
use mduara_api.Mpesa.{B2cResult, trim_or_empty, transaction_id_of}
use mduara_api.Loan.Types.{
  LoanStatus, disbursement_failed, disbursed, PaymentStatus, confirmed, failed, Loan, Disbursement,
  Db,
}
use mduara_api.Loan.Queries.{find_loan, is_confirmed_payment}
use mduara_api.Loan.Service.{
  Report, report, is_paid_out, is_failed_payment, is_disbursement_failed, has_reference,
  find_context, process_failure, process_success, post_disbursement, process_b2c_result, is_zero,
}

pub find_context-inv :
    (t : Text) (s : Db) (d : Disbursement) (l : Loan)
    → find_context t s ≡ some (d, l)
    → (find (has_reference t) s.disbursements ≡ some d) × (find_loan d.loan_id s.loans ≡ some l)
unfolding find_context
find_context-inv t s d l h = ground arith

find_context-found :
    (t : Text) (s : Db) (d : Disbursement) (l : Loan)
    → find (has_reference t) s.disbursements ≡ some d
    → find_loan d.loan_id s.loans ≡ some l
    → find_context t s ≡ some (d, l)
unfolding find_context
find_context-found t s d l e f = ground arith

-- The context that was found is found again once both rows have new statuses.
pub find_context-updated :
    (t : Text) (s s' : Db) (d : Disbursement) (l : Loan) (p : PaymentStatus) (q : LoanStatus)
    → find_context t s ≡ some (d, l)
    → s'.disbursements
      ≡ update_where (λ x. x.loan_id == d.loan_id) (λ x. record x { status = p }) s.disbursements
    → s'.loans ≡ update_where (λ x. x.id == l.id) (λ x. record x { status = q }) s.loans
    → find_context t s' ≡ some (record d { status = p }, record l { status = q })
find_context-updated t s s' d l p q h ds ls =
    let (e, f) = find_context-inv t s d l h in
    find_context-found t s' (record d { status = p }) (record l { status = q })
      (rw
        (
          ds,
          find-update_where (has_reference t) (λ x. x.loan_id == d.loan_id)
              (λ x. record x { status = p }) (λ x. refl) s.disbursements,
          e,
          ==_refl d.loan_id,
        )
        refl)
      (rw
        (
          ls,
          find-update_where (λ x. x.id == d.loan_id) (λ x. x.id == l.id)
              (λ x. record x { status = q }) (λ x. refl) s.loans,
          f,
          ==_refl l.id,
        )
        refl)

abbrev pub disbursement_base : Text → BaseOperation
disbursement_base transaction_id = record {
  reference = codes "loan-disbursement:" ++ transaction_id;
  initiated_by = none;
  currency = none;
}

-- The ledger's call that a success makes, and the instruction that it prepares.
abbrev pub disbursement_call : Text → Disbursement → Loan → Call
disbursement_call transaction_id d loan =
    Call.loan_disbursement (disbursement_base transaction_id) loan.chama_id loan.member_id
      (pos d.amount)

abbrev pub disbursement_operation : Text → Loan → ℕ → PreparedOperation
disbursement_operation transaction_id loan n =
    payout_operation (disbursement_base transaction_id) loan.chama_id
      (member_counter_entry loan.chama_id loan.member_id member_loan_principal debit n) n

post_disbursement-run :
    (t : Text) (d : Disbursement) (l : Loan) (s : Db) {posted : OperationResult × Db}
    → post_disbursement t d l s ≡ ok posted
    → (run (disbursement_call t d l) s.ledger ≡ ok (posted.0, posted.1.ledger))
      × (posted.1.disbursements ≡ s.disbursements)
      × (posted.1.loans ≡ s.loans)
unfolding run
post_disbursement-run t d l s h = elim (Outcome-cases (run (disbursement_call t d l) s.ledger)) [
  | inl (e, x) ↦ ground (arith, x, h)
  | inr (a, x) ↦ (ground (arith, x, h), ground (arith, x, h), ground (arith, x, h))
]

-- A success has been recorded before, or it posts the disbursement and marks both rows.
pub process_success-inv :
    (r : B2cResult) (d : Disbursement) (l : Loan) (s : Db) {rep : Report} {s' : Db}
    → process_success r d l s ≡ ok (rep, s')
    → ((is_confirmed_payment d.status && is_paid_out l.status) ≡ true)
        × (s' ≡ s)
        × (rep ≡ report l l.status true)
      ⊎ (posted : OperationResult × Db) × (run
            (disbursement_call (transaction_id_of r) d l)
            s.ledger
          ≡ ok (posted.0, posted.1.ledger))
        × (s'.ledger ≡ posted.1.ledger)
        × (s'.disbursements
            ≡ update_where
                (λ x. x.loan_id == d.loan_id)
                (λ x. record x { status = confirmed })
                s.disbursements)
        × (s'.loans
            ≡ update_where (λ x. x.id == l.id) (λ x. record x { status = disbursed }) s.loans)
        × (rep ≡ report l disbursed posted.0.replayed)
unfolding process_success
process_success-inv r d l s h =
    elim (Bool-cases (is_confirmed_payment d.status && is_paid_out l.status)) [
      | inl e ↦ inl (e, ground (arith, e, h), ground (arith, e, h))
      | inr e ↦ elim (Outcome-cases (post_disbursement (transaction_id_of r) d l s)) [
        | inl (x, p) ↦ ground (arith, e, p, h)
        | inr (posted, p) ↦
            let (c, ds, ls) = post_disbursement-run (transaction_id_of r) d l s p in
            inr (
              posted,
              c,
              ground (arith, e, p, h),
              ground (arith, e, p, h, ds),
              ground (arith, e, p, h, ls),
              ground (arith, e, p, h),
            )
      ]
    ]

pub process_failure-inv :
    (d : Disbursement) (l : Loan) (s : Db) {rep : Report} {s' : Db}
    → process_failure d l s ≡ ok (rep, s')
    → ((is_failed_payment d.status && is_disbursement_failed l.status) ≡ true)
        × (s' ≡ s)
        × (rep ≡ report l disbursement_failed true)
      ⊎ (s'.ledger ≡ s.ledger)
        × (s'.disbursements
            ≡ update_where
                (λ x. x.loan_id == d.loan_id)
                (λ x. record x { status = failed })
                s.disbursements)
        × (s'.loans
            ≡ update_where
                (λ x. x.id == l.id)
                (λ x. record x { status = disbursement_failed })
                s.loans)
        × (rep ≡ report l disbursement_failed false)
unfolding process_failure
process_failure-inv d l s h =
    elim (Bool-cases (is_failed_payment d.status && is_disbursement_failed l.status)) [
      | inl e ↦ inl (e, ground (arith, e, h), ground (arith, e, h))
      | inr e ↦
          inr
            (ground (arith, e, h), ground (arith, e, h), ground (arith, e, h), ground (arith, e, h))
    ]

pub process_failure-replayed :
    (d : Disbursement) (l : Loan) (s : Db)
    → (is_failed_payment d.status && is_disbursement_failed l.status) ≡ true
    → process_failure d l s ≡ ok (report l disbursement_failed true, s)
unfolding process_failure
process_failure-replayed d l s h = rw h refl

pub process_success-replayed :
    (r : B2cResult) (d : Disbursement) (l : Loan) (s : Db)
    → (is_confirmed_payment d.status && is_paid_out l.status) ≡ true
    → process_success r d l s ≡ ok (report l l.status true, s)
unfolding process_success
process_success-replayed r d l s h = rw h refl

-- A result that is processed has an id, a code and a disbursement, and its code says which way.
pub process_b2c_result-inv :
    (r : B2cResult) (s : Db) {rep : Report} {s' : Db}
    → process_b2c_result r s ≡ ok (rep, s')
    → (z : ℤ) × (d : Disbursement) × (l : Loan) × (r.result_code ≡ some z)
      × (is_empty (trim_or_empty r.conversation_id) ≡ false)
      × (find_context (trim_or_empty r.conversation_id) s ≡ some (d, l))
      × ((if is_zero z then process_success r d l s else process_failure d l s) ≡ ok (rep, s'))
unfolding process_b2c_result
process_b2c_result-inv r s h = elim (Option-cases r.result_code) [
  | inl e ↦ ground (arith, e, h)
  | inr (z, e) ↦ elim (Option-cases (find_context (trim_or_empty r.conversation_id) s)) [
    | inl f ↦ ground (arith, e, f, h)
    | inr ((d, l), f) ↦ (z, d, l, e, ground (arith, e, f, h), f, ground (arith, e, f, h))
  ]
]

pub process_b2c_result-from :
    (r : B2cResult) (s : Db) (z : ℤ) (d : Disbursement) (l : Loan)
    → r.result_code ≡ some z
    → is_empty (trim_or_empty r.conversation_id) ≡ false
    → find_context (trim_or_empty r.conversation_id) s ≡ some (d, l)
    → process_b2c_result r s
      ≡ (if is_zero z then process_success r d l s else process_failure d l s)
unfolding process_b2c_result
process_b2c_result-from r s z d l e n f = ground (arith, e, n, f)
