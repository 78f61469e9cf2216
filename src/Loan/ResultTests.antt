-- ===== src/Loan/ResultTests.antt =====
-- Runs of the provider's results (services/loan.service.ts), and the theorems about them at these
-- runs.
use mduara_api.Prelude.{◌-◌, ◌≤◌, ◌≡◌, refl, true, false, ◌==◌, none, some, [], ◌∷◌, find, arith}
use mduara_api.Prelude.Int.{pos}
use mduara_api.Prelude.Text.{codes, trim}
use mduara_api.Prelude.Outcome.{ok}
use mduara_api.Ledger.Types.{Chama}
use mduara_api.Ledger.Operations.{
  set_pooled_amount, journal_of, deposit_operation, find_existing_operation, post, same_entries,
  record_loan_disbursement,
}
use mduara_api.Ledger.Reconciled.{IsReconciled}
use mduara_api.Mpesa.{parse_provider_amount, transaction_id_of, trim_or_empty}
use mduara_api.Loan.Types.{
  disbursement_pending, disbursement_failed, disbursed, pending, confirmed, failed, Loan,
  Disbursement, Db,
}
use mduara_api.Loan.Service.{Report, find_context, process_b2c_result}
use mduara_api.Loan.Results.{
  process_b2c_result-twice, process_b2c_result-IsReconciled, process_b2c_result-pays, late_failure,
}
use mduara_api.Loan.Samples.{loan_in, payout, tables, result, db_of}

abbrev waiting : Db
waiting = tables disbursement_pending (payout pending ∷ [])

abbrev paid : Db
unfolding process_b2c_result
paid = db_of (process_b2c_result (result (pos 0)) waiting)

abbrev done : Report
done = record { loan_id = 5; status = disbursed; replayed = false }

paid_ledger : paid.ledger.chamas ≡ record { id = 1; pooled_amount = 700 } ∷ []
unfolding process_b2c_result trim find_existing_operation post same_entries record_loan_disbursement
    parse_provider_amount transaction_id_of
paid_ledger = refl

process_b2c_result-twice_example :
    (again : Report) × (process_b2c_result (result (pos 0)) paid ≡ ok (again, paid))
    × (again.replayed ≡ true)
unfolding process_b2c_result trim find_existing_operation post same_entries record_loan_disbursement
    parse_provider_amount transaction_id_of
process_b2c_result-twice_example =
    process_b2c_result-twice (result (pos 0)) waiting {rep = done} {s' = paid} refl

waiting-IsReconciled : IsReconciled (record {
  chamas = record { id = 1; pooled_amount = 1000 } ∷ [];
  transactions =
      journal_of 99 (
        deposit_operation
          (record { reference = codes "d"; initiated_by = none; currency = none })
          1
          1000)
      ∷ [];
  next_id = 100;
})
waiting-IsReconciled = record { treasury = λ i h. ground arith; balanced = (refl, tt) }

abbrev deposited : Db
deposited = record waiting {
  ledger = record {
    chamas = record { id = 1; pooled_amount = 1000 } ∷ [];
    transactions =
        journal_of 99 (
          deposit_operation (record { reference = codes "d"; initiated_by = none; currency = none })
            1 1000)
        ∷ [];
    next_id = 100;
  };
}

abbrev deposited_paid : Db
unfolding process_b2c_result
deposited_paid = db_of (process_b2c_result (result (pos 0)) deposited)

process_b2c_result-IsReconciled_example : IsReconciled deposited_paid.ledger
unfolding process_b2c_result trim find_existing_operation post same_entries record_loan_disbursement
    parse_provider_amount transaction_id_of
process_b2c_result-IsReconciled_example =
    process_b2c_result-IsReconciled (result (pos 0)) deposited {rep = done} {s' = deposited_paid}
      waiting-IsReconciled refl

process_b2c_result-pays_example :
    (d : Disbursement) × (l : Loan) × (c : Chama) × (find_context
        (trim_or_empty (some (codes "AG_1 ")))
        waiting
      ≡ some (d, l))
    × (find (λ x. x.id == l.chama_id) waiting.ledger.chamas ≡ some c)
    × (d.amount ≤ c.pooled_amount)
    × (paid.ledger.chamas
        ≡ set_pooled_amount l.chama_id (c.pooled_amount - d.amount) waiting.ledger.chamas)
    × (find_context (trim_or_empty (some (codes "AG_1 "))) paid
        ≡ some (record d { status = confirmed }, record l { status = disbursed }))
unfolding process_b2c_result trim find_existing_operation post same_entries record_loan_disbursement
    parse_provider_amount transaction_id_of
process_b2c_result-pays_example =
    process_b2c_result-pays (result (pos 0)) waiting {rep = done} {s' = paid} refl refl refl

-- The failure comes for a loan that is disbursed.
late_failure_example :
    (rep : Report) × (t : Db) × (process_b2c_result
        (result (pos 1))
        (tables disbursed (payout confirmed ∷ []))
      ≡ ok (rep, t))
    × (rep.replayed ≡ false)
    × (t.ledger ≡ (tables disbursed (payout confirmed ∷ [])).ledger)
    × (find_context (trim_or_empty (some (codes "AG_1 "))) t
        ≡ some (
          record (payout confirmed) { status = failed },
          record (loan_in disbursed) { status = disbursement_failed },
        ))
unfolding trim find_context
late_failure_example =
    late_failure (result (pos 1)) (tables disbursed (payout confirmed ∷ [])) (payout confirmed)
      (loan_in disbursed) refl refl refl refl
