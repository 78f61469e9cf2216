-- ===== src/Loan/Repayments.antt =====
-- What a repayment intent changes (`recordRepaymentIntent`, services/loan.service.ts).
use mduara_api.Prelude.{
  ℕ, ◌+◌, ◌≤◌, ◌≡◌, ◌&&◌, Bool, true, some, ◌∷◌, [], arith, ◌==◌, inl, inr, Option-cases,
  sum_where-append,
}
use mduara_api.Prelude.Outcome.{ok}
use mduara_api.Loan.Types.{Loan, Repayment, PaymentStatus, Db}
use mduara_api.Loan.Queries.{find_loan, confirmed_repayments, is_confirmed_payment}
use mduara_api.Loan.Service.{record_repayment_intent, is_repayable}

-- A repayment that is submitted is for a loan that is being repaid, does not take the confirmed
-- repayments beyond the total due, and confirms nothing: loans, ledger and the confirmed
-- repayments of every loan are what they were.
pub record_repayment_intent-confirms_nothing :
    (production : Bool) (user_id loan_id amount : ℕ) (s : Db) {u : Unit {0}} {s' : Db}
    → record_repayment_intent production user_id loan_id amount s ≡ ok (u, s')
    → (loan : Loan) × (find_loan loan_id s.loans ≡ some loan)
      × (is_repayable loan.status ≡ true)
      × (amount + confirmed_repayments loan.id s ≤ loan.total_due)
      × (s'.loans ≡ s.loans)
      × (s'.ledger ≡ s.ledger)
      × ((k : ℕ) → confirmed_repayments k s' ≡ confirmed_repayments k s)
unfolding record_repayment_intent
record_repayment_intent-confirms_nothing production user_id loan_id amount s h =
    elim (Option-cases (find_loan loan_id s.loans)) [
      | inl e ↦ absurd (ground (arith, e, h))
      | inr (loan, e) ↦ (
        loan,
        e,
        ground (arith, e, h),
        ground (arith, e, h),
        ground (arith, e, h),
        ground (arith, e, h),
        λ k. ground (
          arith,
          e,
          h,
          sum_where-append (λ (r : Repayment). r.loan_id == k && is_confirmed_payment r.status)
              (λ r. r.amount) s.repayments
              (record { loan_id = loan.id; amount = amount; status = PaymentStatus.pending } ∷ []),
        ),
      )
    ]
