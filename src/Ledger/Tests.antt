-- ===== src/Ledger/Tests.antt =====
-- Runs of the ledger (shared/business-logic.ts), and the theorems about it at these runs.
use mduara_api.Prelude.{ℕ, ◌≡◌, refl, true, false, none, List, [], ◌∷◌, map, arith}
use mduara_api.Prelude.Int.{pos}
use mduara_api.Prelude.Text.{Text, codes, trim}
use mduara_api.Prelude.Outcome.{Outcome, ok, err}
use mduara_api.Ledger.Types.{
  Ledger, BaseOperation, PreparedOperation, OperationResult, Failure, insufficient_treasury_funds,
  idempotency_conflict,
}
use mduara_api.Ledger.Operations.{
  deposit_operation, execute, record_payout, record_member_payout, find_existing_operation, post,
  same_entries, journal_of,
}
use mduara_api.Ledger.Calls.{Call, run, run_all, run_all-IsReconciled}
use mduara_api.Ledger.Reconciled.{IsReconciled}
use mduara_api.Ledger.Guards.{IsAccepted, run-IsAccepted}
use mduara_api.Ledger.Replay.{execute-execute, record_member_payout-other_member}

abbrev named : Text → BaseOperation
named reference = record { reference = reference; initiated_by = none; currency = none }

abbrev two_chamas : Ledger
two_chamas = record {
  chamas = record { id = 1; pooled_amount = 0 } ∷ record { id = 2; pooled_amount = 0 } ∷ [];
  transactions = [];
  next_id = 10;
}

two_chamas-IsReconciled : IsReconciled two_chamas
two_chamas-IsReconciled = record { treasury = λ i h. ground arith; balanced = tt }

abbrev history : List Call
history =
    Call.deposit (named (codes "d-1")) 1 (pos 500)
    ∷ Call.transfer (named (codes "t-1")) 1 2 (pos 200)
    ∷ Call.payout (named (codes "p-1")) 2 (pos 900)
    ∷ Call.member_payout (named (codes "p-2")) 2 7 (pos 150)
    ∷ Call.deposit (named (codes "d-1")) 1 (pos 500)
    ∷ []

abbrev balances : Ledger → List (ℕ × ℕ)
balances s = map (λ c. (c.id, c.pooled_amount)) s.chamas

balances_after : balances (run_all history two_chamas) ≡ (1, 300) ∷ (2, 50) ∷ []
unfolding run trim find_existing_operation post same_entries
balances_after = refl

run_all-IsReconciled_example : IsReconciled (run_all history two_chamas)
run_all-IsReconciled_example = run_all-IsReconciled history two_chamas two_chamas-IsReconciled

abbrev result_of : Outcome Failure (OperationResult × Ledger) → OperationResult
result_of (ok (r, s)) = r
result_of (err e) = record { ledger_transaction_id = 0; balances = []; replayed = false }

abbrev ledger_of : Outcome Failure (OperationResult × Ledger) → Ledger
ledger_of (ok (r, s)) = s
ledger_of (err e) = two_chamas

-- Both chamas with money, and the journal of an earlier deposit.
abbrev funded : Ledger
funded = record {
  chamas = record { id = 1; pooled_amount = 500 } ∷ record { id = 2; pooled_amount = 40 } ∷ [];
  transactions = journal_of 9 (deposit_operation (named (codes "d-1")) 1 500) ∷ [];
  next_id = 10;
}

overdrawn :
    record_payout (named (codes "p-1")) 2 (pos 41) funded ≡ err (insufficient_treasury_funds 2)
unfolding record_payout trim find_existing_operation post same_entries
overdrawn = refl

reused_reference :
    record_payout (named (codes "d-1")) 1 (pos 500) funded
    ≡ err (idempotency_conflict (codes "d-1"))
unfolding record_payout trim find_existing_operation post same_entries
reused_reference = refl

run-IsAccepted_example :
    IsAccepted funded (ledger_of (run (Call.transfer (named (codes "t-1")) 1 2 (pos 200)) funded))
unfolding run trim find_existing_operation post same_entries
run-IsAccepted_example =
    run-IsAccepted (Call.transfer (named (codes "t-1")) 1 2 (pos 200)) funded
      {r = result_of (run (Call.transfer (named (codes "t-1")) 1 2 (pos 200)) funded)}
      {s' = ledger_of (run (Call.transfer (named (codes "t-1")) 1 2 (pos 200)) funded)} refl

abbrev small_deposit : PreparedOperation
small_deposit = deposit_operation (named (codes "d-2")) 2 60

execute-execute_example :
    (again : OperationResult) × (execute small_deposit (ledger_of (execute small_deposit funded))
      ≡ ok (again, ledger_of (execute small_deposit funded)))
    × (again.ledger_transaction_id ≡ 10)
    × (again.replayed ≡ true)
unfolding execute trim find_existing_operation post same_entries
execute-execute_example =
    execute-execute small_deposit funded {r = result_of (execute small_deposit funded)}
      {s' = ledger_of (execute small_deposit funded)} refl

-- Member 8 asks for the payout that member 7 has had under this reference.
record_member_payout-other_member_example :
    (again : OperationResult) × (record_member_payout
        (named (codes "p-1"))
        1
        8
        (pos 300)
        (ledger_of (record_member_payout (named (codes "p-1")) 1 7 (pos 300) funded))
      ≡ ok (again, ledger_of (record_member_payout (named (codes "p-1")) 1 7 (pos 300) funded)))
    × (again.ledger_transaction_id ≡ 10)
    × (again.replayed ≡ true)
unfolding record_member_payout trim find_existing_operation post same_entries
record_member_payout-other_member_example =
    record_member_payout-other_member (named (codes "p-1")) 1 7 8 (pos 300) funded
      {r = result_of (record_member_payout (named (codes "p-1")) 1 7 (pos 300) funded)}
      {s' = ledger_of (record_member_payout (named (codes "p-1")) 1 7 (pos 300) funded)} refl
