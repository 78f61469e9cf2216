-- ===== src/Ledger/Calls.antt =====
-- Histories of ledger calls (shared/business-logic.ts): a call that throws is rolled back.
use mduara_api.Prelude.{ℕ, ◌≡◌, refl, inl, inr, List, [], ◌∷◌, arith, ◌==◌}
use mduara_api.Prelude.Int.{ℤ}
use mduara_api.Prelude.Outcome.{Outcome, ok, err, >>=-eq-ok, refuse}
use mduara_api.Ledger.Types.{
  Ledger, OperationResult, Failure, BaseOperation, PreparedOperation, same_chama,
}
use mduara_api.Ledger.Operations.{
  execute, record_deposit, record_payout, record_member_payout, record_loan_disbursement,
  record_transfer, assert_positive_amount, post,
}
use mduara_api.Ledger.Reconciled.{
  IsReconciled, execute-cases, post-deposit-IsReconciled, post-payout-IsReconciled,
  post-transfer-IsReconciled,
}

-- A call of one of the recording operations, with its arguments.
pub data Call : Type 0 where
  deposit payout : BaseOperation → ℕ → ℤ → Call
  member_payout loan_disbursement : BaseOperation → ℕ → ℕ → ℤ → Call
  transfer : BaseOperation → ℕ → ℕ → ℤ → Call

unfoldable pub run : Call → Ledger → Outcome Failure (OperationResult × Ledger)
unfolding record_deposit record_payout record_member_payout record_loan_disbursement record_transfer
run (deposit base i a) = record_deposit base i a
run (payout base i a) = record_payout base i a
run (member_payout base i m a) = record_member_payout base i m a
run (loan_disbursement base i m a) = record_loan_disbursement base i m a
run (transfer base i j a) = record_transfer base i j a

abbrev pub state_after : Ledger → Outcome Failure (OperationResult × Ledger) → Ledger
state_after s (ok (r, s')) = s'
state_after s (err e) = s

abbrev pub run_all : List Call → Ledger → Ledger
run_all [] s = s
run_all (c ∷ cs) s = run_all cs (state_after s (run c s))

execute-IsReconciled :
    (op : PreparedOperation) (s : Ledger) {r : OperationResult} {s' : Ledger}
    → IsReconciled s
    → (post op s ≡ ok (r, s') → IsReconciled s')
    → execute op s ≡ ok (r, s')
    → IsReconciled s'
execute-IsReconciled op s v posted h = elim (execute-cases op s h) [
  | inl same ↦ rw same v
  | inr p ↦ posted p
]

-- A call that succeeds keeps the ledger reconciled and every journal balanced.
pub run-IsReconciled :
    (c : Call) (s : Ledger) {r : OperationResult} {s' : Ledger}
    → IsReconciled s
    → run c s ≡ ok (r, s')
    → IsReconciled s'
unfolding run
run-IsReconciled (deposit base i a) s v h =
    let (n, e, x) = >>=-eq-ok (assert_positive_amount a) _ h in
    execute-IsReconciled _ s v (post-deposit-IsReconciled base i n v) x
run-IsReconciled (payout base i a) s v h =
    let (n, e, x) = >>=-eq-ok (assert_positive_amount a) _ h in
    execute-IsReconciled _ s v (post-payout-IsReconciled base i n v _ refl refl refl) x
run-IsReconciled (member_payout base i m a) s v h =
    let (n, e, x) = >>=-eq-ok (assert_positive_amount a) _ h in
    execute-IsReconciled _ s v (post-payout-IsReconciled base i n v _ refl refl refl) x
run-IsReconciled (loan_disbursement base i m a) s v h =
    let (n, e, x) = >>=-eq-ok (assert_positive_amount a) _ h in
    execute-IsReconciled _ s v (post-payout-IsReconciled base i n v _ refl refl refl) x
run-IsReconciled (transfer base i j a) s v h =
    let (n, e, x) = >>=-eq-ok (assert_positive_amount a) _ h in
    let (u, ne, y) = >>=-eq-ok (refuse (i == j) same_chama) _ x in
    execute-IsReconciled _ s v (post-transfer-IsReconciled base i j n v (ground (arith, ne))) y

-- After any history of calls, from any reconciled ledger, the ledger is reconciled.
pub run_all-IsReconciled :
    (cs : List Call) (s : Ledger) → IsReconciled s → IsReconciled (run_all cs s)
run_all-IsReconciled [] s v = v
run_all-IsReconciled (c ∷ cs) s v =
    run_all-IsReconciled cs (state_after s (run c s)) (kept (run c s) refl)
  where
    kept :
        (o : Outcome Failure (OperationResult × Ledger))
        → run c s ≡ o
        → IsReconciled (state_after s o)
    kept (ok (r, s')) e = run-IsReconciled c s v e
    kept (err f) e = v
