-- ===== src/Loan/Results.antt =====
-- The provider's results of a payout (`processB2CResult`, services/loan.service.ts): delivered
-- twice, posted to the ledger, and in the wrong order.
use mduara_api.Prelude.{
  ℕ, zero, suc, ◌-◌, ◌≤◌, ◌≡◌, refl, ◌∙◌, true, false, some, arith, find, ◌==◌, inl, inr,
  Bool-cases,
}
use mduara_api.Prelude.Int.{ℤ, pos}
use mduara_api.Prelude.Text.{Text, is_empty}
use mduara_api.Prelude.Outcome.{ok, >>=-eq-ok}
use mduara_api.Ledger.Types.{OperationResult, member_loan_principal, debit, Chama, Ledger}
use mduara_api.Ledger.Calls.{run, run-IsReconciled}
use mduara_api.Ledger.Operations.{
  assert_positive_amount, execute, member_counter_entry, set_pooled_amount,
}
use mduara_api.Ledger.Replay.{execute-inv}
use mduara_api.Ledger.Posted.{post-payout}
use mduara_api.Ledger.Reconciled.{IsReconciled}
use mduara_api.Mpesa.{B2cResult, trim_or_empty, transaction_id_of}
use mduara_api.Loan.Types.{
  disbursement_failed, disbursed, PaymentStatus, confirmed, failed, Loan, Disbursement, Db,
}
use mduara_api.Loan.Queries.{is_confirmed_payment}
use mduara_api.Loan.Service.{
  Report, report, is_failed_payment, find_context, process_failure, process_success,
  process_b2c_result, is_zero,
}
use mduara_api.Loan.Payout.{
  disbursement_base, disbursement_operation, disbursement_call, find_context-updated,
  process_success-inv, process_failure-inv, process_success-replayed, process_failure-replayed,
  process_b2c_result-inv, process_b2c_result-from,
}

abbrev pub Repeated : B2cResult → Loan → Db → Type 0
Repeated r l s' =
    (again : Report) × (process_b2c_result r s' ≡ ok (again, s'))
    × (again.replayed ≡ true)
    × (again.loan_id ≡ l.id)

module _ (r : B2cResult) (s : Db) (z : ℤ) (d : Disbursement) (l : Loan)
    (code : r.result_code ≡ some z) (given : is_empty (trim_or_empty r.conversation_id) ≡ false)
    (found : find_context (trim_or_empty r.conversation_id) s ≡ some (d, l)) where
  success-twice :
      {rep : Report} {s' : Db}
      → is_zero z ≡ true
      → process_success r d l s ≡ ok (rep, s')
      → Repeated r l s'
  success-twice {s' = s'} z_eq h = elim (process_success-inv r d l s h) [
    | inl (e, same, answer) ↦ (
      report l l.status true,
      rw same (
          process_b2c_result-from r s z d l code given found
          ∙ rw z_eq (process_success-replayed r d l s e)),
      refl,
      refl,
    )
    | inr (posted, call, led, ds, ls, answer) ↦
        let d' = record d { status = confirmed } in
        let l' = record l { status = disbursed } in
        (
          report l' disbursed true,
          process_b2c_result-from r s' z d' l' code given (
                find_context-updated (trim_or_empty r.conversation_id) s s' d l confirmed disbursed
                  found ds ls)
              ∙ rw z_eq (process_success-replayed r d' l' s' refl),
          refl,
          refl,
        )
  ]

  failure-twice :
      {rep : Report} {s' : Db}
      → is_zero z ≡ false
      → process_failure d l s ≡ ok (rep, s')
      → Repeated r l s'
  failure-twice {s' = s'} z_eq h = elim (process_failure-inv d l s h) [
    | inl (e, same, answer) ↦ (
      report l disbursement_failed true,
      rw same (
          process_b2c_result-from r s z d l code given found
          ∙ rw z_eq (process_failure-replayed d l s e)),
      refl,
      refl,
    )
    | inr (led, ds, ls, answer) ↦
        let d' = record d { status = failed } in
        let l' = record l { status = disbursement_failed } in
        (
          report l' disbursement_failed true,
          process_b2c_result-from r s' z d' l' code given (
                find_context-updated (trim_or_empty r.conversation_id) s s' d l failed
                  disbursement_failed found ds ls)
              ∙ rw z_eq (process_failure-replayed d' l' s' refl),
          refl,
          refl,
        )
  ]

-- A result that was processed, delivered again, is answered as a replay and changes nothing.
pub process_b2c_result-twice :
    (r : B2cResult) (s : Db) {rep : Report} {s' : Db}
    → process_b2c_result r s ≡ ok (rep, s')
    → (again : Report) × (process_b2c_result r s' ≡ ok (again, s')) × (again.replayed ≡ true)
process_b2c_result-twice r s h =
    let (z, d, l, code, given, found, x) = process_b2c_result-inv r s h in
    elim (Bool-cases (is_zero z)) [
      | inl e ↦
          let (a, b, c, i) = success-twice r s z d l code given found e (rw e at x) in (a, b, c)
      | inr e ↦
          let (a, b, c, i) = failure-twice r s z d l code given found e (rw e at x) in (a, b, c)
    ]

-- A result of the provider that is processed keeps a reconciled ledger reconciled and its journals
-- balanced.
pub process_b2c_result-IsReconciled :
    (r : B2cResult) (s : Db) {rep : Report} {s' : Db}
    → IsReconciled s.ledger
    → process_b2c_result r s ≡ ok (rep, s')
    → IsReconciled s'.ledger
process_b2c_result-IsReconciled r s {s' = s'} v h =
    let (z, d, l, code, given, found, x) = process_b2c_result-inv r s h in
    elim (Bool-cases (is_zero z)) [
      | inl e ↦ elim (process_success-inv r d l s (rw e at x)) [
        | inl (w, same, answer) ↦ rw same v
        | inr (posted, call, led, ds, ls, answer) ↦
            rw led (run-IsReconciled (disbursement_call (transaction_id_of r) d l) s.ledger v call)
      ]
      | inr e ↦ elim (process_failure-inv d l s (rw e at x)) [
        | inl (w, same, answer) ↦ rw same v
        | inr (led, ds, ls, answer) ↦ rw led v
      ]
    ]

assert_positive_amount_same : (m : ℕ) {n : ℕ} → assert_positive_amount (pos m) ≡ ok n → n ≡ m
assert_positive_amount_same zero h = cc
assert_positive_amount_same (suc m) h = ground arith

post-disbursement-pays :
    (t : Text) (d : Disbursement) (l : Loan) (s : Ledger) (n : ℕ) {o : OperationResult}
    {s' : Ledger}
    → n ≡ d.amount
    → execute (disbursement_operation t l n) s ≡ ok (o, s')
    → o.replayed ≡ false
    → (c : Chama) × (find (λ x. x.id == l.chama_id) s.chamas ≡ some c)
      × (d.amount ≤ c.pooled_amount)
      × (s'.chamas ≡ set_pooled_amount l.chama_id (c.pooled_amount - d.amount) s.chamas)
post-disbursement-pays t d l s n q x new = elim (execute-inv (disbursement_operation t l n) s x) [
  | inl (u, nb, f, c, k, same, answer) ↦ ground (arith, answer, new)
  | inr (nb, f, posted) ↦
      let (c, g, enough, chamas, journals) =
        post-payout (disbursement_base t) l.chama_id n s
          (member_counter_entry l.chama_id l.member_id member_loan_principal debit n) posted in
      (c, g, rw q at enough, rw q at chamas)
]

-- A disbursement that the ledger's call has just posted.
run_disbursement-pays :
    (t : Text) (d : Disbursement) (l : Loan) (s : Ledger) {o : OperationResult} {s' : Ledger}
    → run (disbursement_call t d l) s ≡ ok (o, s')
    → o.replayed ≡ false
    → (c : Chama) × (find (λ x. x.id == l.chama_id) s.chamas ≡ some c)
      × (d.amount ≤ c.pooled_amount)
      × (s'.chamas ≡ set_pooled_amount l.chama_id (c.pooled_amount - d.amount) s.chamas)
unfolding run
run_disbursement-pays t d l s h new =
    let (n, e, x) = >>=-eq-ok (assert_positive_amount (pos d.amount)) _ h in
    post-disbursement-pays t d l s n (assert_positive_amount_same d.amount e) x new

-- A success that is not a replay takes the amount of the disbursement from the chama's treasury,
-- which held it, and marks the disbursement as confirmed and the loan as disbursed.
pub process_b2c_result-pays :
    (r : B2cResult) (s : Db) {rep : Report} {s' : Db}
    → process_b2c_result r s ≡ ok (rep, s')
    → r.result_code ≡ some (pos 0)
    → rep.replayed ≡ false
    → (d : Disbursement) × (l : Loan) × (c : Chama) × (find_context
          (trim_or_empty r.conversation_id)
          s
        ≡ some (d, l))
      × (find (λ x. x.id == l.chama_id) s.ledger.chamas ≡ some c)
      × (d.amount ≤ c.pooled_amount)
      × (s'.ledger.chamas
          ≡ set_pooled_amount l.chama_id (c.pooled_amount - d.amount) s.ledger.chamas)
      × (find_context (trim_or_empty r.conversation_id) s'
          ≡ some (record d { status = confirmed }, record l { status = disbursed }))
process_b2c_result-pays r s {s' = s'} h done new =
    let (z, d, l, code, given, found, x) = process_b2c_result-inv r s h in
    let e : is_zero z ≡ true = ground (arith, code, done) in
    elim (process_success-inv r d l s (rw e at x)) [
      | inl (w, same, answer) ↦ ground (arith, answer, new)
      | inr (posted, call, led, ds, ls, answer) ↦
          let (c, g, enough, chamas) =
            run_disbursement-pays (transaction_id_of r) d l s.ledger call
              (ground (arith, answer, new)) in
          (
            d,
            l,
            c,
            found,
            g,
            enough,
            rw led chamas,
            find_context-updated (trim_or_empty r.conversation_id) s s' d l confirmed disbursed
                found ds ls,
          )
    ]

process_failure-writes :
    (d : Disbursement) (l : Loan) (s : Db)
    → is_failed_payment d.status ≡ false
    → (rep : Report) × (s' : Db) × (process_failure d l s ≡ ok (rep, s')) × (rep.replayed ≡ false)
unfolding process_failure
process_failure-writes d l s h = rw h (_, _, refl, refl)

is_confirmed_payment→is_failed_payment :
    (p : PaymentStatus) → is_confirmed_payment p ≡ true → is_failed_payment p ≡ false
is_confirmed_payment→is_failed_payment confirmed h = refl
is_confirmed_payment→is_failed_payment _ h = cc

-- A failure, of code 1, that comes for a disbursement that is confirmed is not refused: the
-- disbursement and its loan are marked as failed, and the ledger is as it was, with the payout
-- in it.
pub late_failure :
    (r : B2cResult) (s : Db) (d : Disbursement) (l : Loan)
    → r.result_code ≡ some (pos 1)
    → is_empty (trim_or_empty r.conversation_id) ≡ false
    → find_context (trim_or_empty r.conversation_id) s ≡ some (d, l)
    → is_confirmed_payment d.status ≡ true
    → (rep : Report) × (s' : Db) × (process_b2c_result r s ≡ ok (rep, s'))
      × (rep.replayed ≡ false)
      × (s'.ledger ≡ s.ledger)
      × (find_context (trim_or_empty r.conversation_id) s'
          ≡ some (record d { status = failed }, record l { status = disbursement_failed }))
late_failure r s d l code given found paid =
    let (rep, s', x, new) =
      process_failure-writes d l s (is_confirmed_payment→is_failed_payment d.status paid) in
    elim (process_failure-inv d l s x) [
      | inl (w, same, answer) ↦ ground (arith, answer, new)
      | inr (led, ds, ls, answer) ↦ (
        rep,
        s',
        process_b2c_result-from r s (pos 1) d l code given found ∙ x,
        new,
        led,
        find_context-updated (trim_or_empty r.conversation_id) s s' d l failed disbursement_failed
            found ds ls,
      )
    ]
