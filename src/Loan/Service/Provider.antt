-- ===== src/Loan/Service/Provider.antt =====
-- The provider's callbacks: `processB2CResult` and `processB2CTimeout`
-- (services/loan.service.ts).
use mduara_api.Prelude.{
  ℕ, Bool, true, false, ◌&&◌, Option, none, some, ◌++◌, find, update_where, ◌==◌, if◌then◌else◌,
}
use mduara_api.Prelude.Int.{ℤ, pos, negsuc}
use mduara_api.Prelude.Text.{Text, codes, text_eq, is_empty}
use mduara_api.Prelude.Outcome.{Outcome, ok, ◌>>=◌, ◌>>◌, guard, refuse, require}
use mduara_api.Ledger.Types.{OperationResult}
use mduara_api.Ledger.Operations.{record_loan_disbursement}
use mduara_api.Mpesa.{B2cResult, parse_provider_amount, transaction_id_of, trim_or_empty}
use mduara_api.Loan.Types.{
  LoanStatus, disbursement_failed, disbursed, active, partially_repaid, repaid, PaymentStatus,
  confirmed, failed, Loan, Disbursement, Db, Failure, result_invalid, disbursement_not_found,
  transaction_id_missing, amount_mismatch, payout_failed, payout_confirmed, payout_timeout,
}
use mduara_api.Loan.Queries.{
  find_loan, lift_ledger, is_confirmed_payment, is_pending_payment, is_disbursement_pending,
  set_loan_status, audit,
}
use mduara_api.Loan.Service.Closing.{is_disbursement_failed}

pub record Report : Type 0 where
  pub loan_id : ℕ
  pub status : LoanStatus
  pub replayed : Bool

abbrev pub has_reference : Text → Disbursement → Bool
has_reference t d = elim d.provider_reference [ none ↦ false | some r ↦ text_eq r t ]

-- The disbursement with this provider reference, joined to its loan.
unfoldable pub find_context : Text → Db → Option (Disbursement × Loan)
find_context conversation_id s = elim (find (has_reference conversation_id) s.disbursements) [
  | none ↦ none
  | some d ↦ elim (find_loan d.loan_id s.loans) [ none ↦ none | some l ↦ some (d, l) ]
]

abbrev pub is_failed_payment : PaymentStatus → Bool
is_failed_payment failed = true
is_failed_payment _ = false

abbrev pub is_paid_out : LoanStatus → Bool
is_paid_out disbursed = true
is_paid_out active = true
is_paid_out partially_repaid = true
is_paid_out repaid = true
is_paid_out _ = false

abbrev pub report : Loan → LoanStatus → Bool → Report
report loan status replayed = record { loan_id = loan.id; status = status; replayed = replayed }

-- The row is found by its primary key; a disbursement is the only one of its loan.
abbrev pub set_disbursement_status : ℕ → PaymentStatus → Db → Db
set_disbursement_status loan_id status s = record s {
  disbursements =
      update_where (λ d. d.loan_id == loan_id) (λ d. record d { status = status }) s.disbursements;
}

-- A result whose code is not 0.
unfoldable pub process_failure : Disbursement → Loan → Db → Outcome Failure (Report × Db)
process_failure d loan s =
    if is_failed_payment d.status && is_disbursement_failed loan.status
    then ok (report loan disbursement_failed true, s)
    else ok (
      report loan disbursement_failed false,
      audit loan.id payout_failed none (
          set_loan_status loan.id disbursement_failed (set_disbursement_status d.loan_id failed s)),
    )

abbrev pub amount_agrees : Option ℤ → ℕ → Bool
amount_agrees none n = true
amount_agrees (some (pos m)) n = m == n
amount_agrees (some (negsuc m)) n = false

-- `provider: 'mpesa'` and the rest of the metadata are left out.
abbrev pub post_disbursement :
    Text → Disbursement → Loan → Db → Outcome Failure (OperationResult × Db)
post_disbursement transaction_id d loan s = do
  posted ← lift_ledger (
      record_loan_disbursement
        (record {
          reference = codes "loan-disbursement:" ++ transaction_id;
          initiated_by = none;
          currency = none;
        })
        loan.chama_id loan.member_id (pos d.amount) s.ledger)
  ok (posted.0, record s { ledger = posted.1 })

-- A result whose code is 0.
unfoldable pub process_success :
    B2cResult → Disbursement → Loan → Db → Outcome Failure (Report × Db)
process_success r d loan s =
    if is_confirmed_payment d.status && is_paid_out loan.status
    then ok (report loan loan.status true, s)
    else do
      refuse (is_empty (transaction_id_of r)) transaction_id_missing
      guard (amount_agrees (parse_provider_amount r.amount_parameter) d.amount) amount_mismatch
      posted ← post_disbursement (transaction_id_of r) d loan s
      ok (
        report loan disbursed posted.0.replayed,
        audit loan.id payout_confirmed none (
            set_loan_status loan.id disbursed
              (set_disbursement_status d.loan_id confirmed posted.1)),
      )

abbrev pub is_zero : ℤ → Bool
is_zero (pos n) = n == 0
is_zero (negsuc n) = false

unfoldable pub process_b2c_result : B2cResult → Db → Outcome Failure (Report × Db)
unfolding find_context process_failure process_success
process_b2c_result r s = do
  let conversation_id = trim_or_empty r.conversation_id
  refuse (is_empty conversation_id) result_invalid
  code ← require r.result_code result_invalid
  context ← require (find_context conversation_id s) disbursement_not_found
  if is_zero code
      then process_success r context.0 context.1 s
      else process_failure context.0 context.1 s

-- `processB2CTimeout`: both updates are conditional, the answer is not.
unfoldable pub process_b2c_timeout : B2cResult → Db → Outcome Failure (Report × Db)
unfolding find_context
process_b2c_timeout r s = do
  let conversation_id = trim_or_empty r.conversation_id
  refuse (is_empty conversation_id) result_invalid
  context ← require (find_context conversation_id s) disbursement_not_found
  let loan_id = context.0.loan_id
  let s' = record s {
    disbursements =
        update_where (λ d. d.loan_id == loan_id && is_pending_payment d.status)
          (λ d. record d { status = failed }) s.disbursements;
    loans =
        update_where (λ l. l.id == loan_id && is_disbursement_pending l.status)
          (λ l. record l { status = disbursement_failed }) s.loans;
  }
  ok (report context.1 disbursement_failed false, audit loan_id payout_timeout none s')
