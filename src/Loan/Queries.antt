-- ===== src/Loan/Queries.antt =====
-- The queries and calculations of services/loan.service.ts that its operations share.
use mduara_api.Prelude.{
  ℕ, ◌+◌, ◌-◌, ◌*◌, ◌/◌, Bool, true, false, not, ◌&&◌, Option, none, some, List, [], ◌∷◌, ◌++◌,
  find, any, all, sum_where, count_where, update_where, leb, ◌==◌, if◌then◌else◌,
}
use mduara_api.Prelude.Outcome.{Outcome, ok, err, ◌>>=◌, ◌>>◌, guard, refuse, require}
use mduara_api.Ledger.Types
use mduara_api.Ledger.Triggers.{pooled}
use mduara_api.Loan.Types.{
  LoanStatus, disbursement_pending, repaid, rejected, cancelled, PaymentStatus, confirmed, Member,
  Loan, Guarantee, Rule, Action, Db, Failure, membership_inactive, rule_not_configured,
  duplicate_guarantor, guarantor_inactive, loan_not_found, chama_not_found, treasury_insufficient,
  ledger,
}

abbrev pub lift_ledger {ℓ} : {A : Type ℓ} → Outcome Types.Failure A → Outcome Failure A
lift_ledger (ok a) = ok a
lift_ledger (err e) = err (ledger e)

abbrev pub get_active_membership : ℕ → ℕ → Db → Outcome Failure Member
get_active_membership chama_id user_id s =
    require (find (λ m. m.chama_id == chama_id && m.user_id == user_id && m.is_active) s.members)
      membership_inactive

abbrev pub get_active_loan_rule : ℕ → Db → Outcome Failure Rule
get_active_loan_rule chama_id s =
    require (find (λ r. r.chama_id == chama_id) s.rules) rule_not_configured

abbrev pub find_loan : ℕ → List Loan → Option Loan
find_loan loan_id = find (λ l. l.id == loan_id)

abbrev pub get_loan_for_update : ℕ → Db → Outcome Failure Loan
get_loan_for_update loan_id s = require (find_loan loan_id s.loans) loan_not_found

abbrev pub member_savings : ℕ → Db → ℕ
member_savings member_id s =
    sum_where (λ p. p.member_id == member_id && p.is_confirmed) (λ p. p.amount) s.payments

-- A status that releases the guarantors.
abbrev pub releases : LoanStatus → Bool
releases rejected = true
releases cancelled = true
releases repaid = true
releases _ = false

-- `JOIN loans l ON l.id = loan_id`, with a condition on the loan.
abbrev pub joined_loan : (Loan → Bool) → ℕ → List Loan → Bool
joined_loan p loan_id loans = elim (find_loan loan_id loans) [ none ↦ false | some l ↦ p l ]

-- `lockedGuarantees`, but for the loan that is excluded.
abbrev pub locked_guarantees : ℕ → ℕ → Db → ℕ
locked_guarantees member_id excluding_loan_id s =
    sum_where
      (λ g.
        g.member_id == member_id
        && g.is_approved
        && joined_loan (λ l. not (releases l.status) && not (l.id == excluding_loan_id)) g.loan_id
            s.loans)
      (λ g. g.guaranteed_amount) s.guarantees

-- `guarantorProgress`: the approved coverage and the number of approvals.
abbrev pub coverage_amount : ℕ → List Guarantee → ℕ
coverage_amount loan_id =
    sum_where (λ g. g.loan_id == loan_id && g.is_approved) (λ g. g.guaranteed_amount)

abbrev pub approved_count : ℕ → List Guarantee → ℕ
approved_count loan_id = count_where (λ g. g.loan_id == loan_id && g.is_approved)

abbrev pub is_collateralised : Loan → Rule → List Guarantee → Bool
is_collateralised loan rule guarantees =
    leb loan.principal_amount (coverage_amount loan.id guarantees)
    && leb rule.min_guarantors (approved_count loan.id guarantees)

abbrev pub is_confirmed_payment : PaymentStatus → Bool
is_confirmed_payment confirmed = true
is_confirmed_payment _ = false

abbrev pub is_pending_payment : PaymentStatus → Bool
is_pending_payment PaymentStatus.pending = true
is_pending_payment _ = false

abbrev pub is_disbursement_pending : LoanStatus → Bool
is_disbursement_pending disbursement_pending = true
is_disbursement_pending _ = false

abbrev pub confirmed_repayments : ℕ → Db → ℕ
confirmed_repayments loan_id s =
    sum_where (λ r. r.loan_id == loan_id && is_confirmed_payment r.status) (λ r. r.amount)
      s.repayments

-- What the pending disbursements of a chama have reserved, but for one loan's.
abbrev pub reserved_funds : ℕ → ℕ → Db → ℕ
reserved_funds chama_id loan_id s =
    sum_where
      (λ d.
        not (d.loan_id == loan_id)
        && is_pending_payment d.status
        && joined_loan (λ l. l.chama_id == chama_id && is_disbursement_pending l.status) d.loan_id
            s.loans)
      (λ d. d.amount) s.disbursements

-- `assertTreasuryAvailableForLoan`: the subtraction stops at 0, as the source writes out.
unfoldable pub assert_treasury_available : ℕ → ℕ → ℕ → Db → Outcome Failure (Unit {0})
assert_treasury_available chama_id loan_id amount s = do
  treasury ← require (pooled chama_id s.ledger.chamas) chama_not_found
  guard (leb amount (treasury - reserved_funds chama_id loan_id s)) treasury_insufficient

-- `new Set(memberIds).size !== memberIds.length`
abbrev pub has_duplicates : List ℕ → Bool
has_duplicates [] = false
has_duplicates (i ∷ is) = if any (λ j. j == i) is then true else has_duplicates is

-- `assertActiveGuarantors`: the query finds each of the ids, which are distinct by then.
abbrev pub assert_active_guarantors : ℕ → List ℕ → Db → Outcome Failure (Unit {0})
assert_active_guarantors chama_id member_ids s = do
  refuse (has_duplicates member_ids) duplicate_guarantor
  guard
      (all (λ i. any (λ m. m.id == i && m.chama_id == chama_id && m.is_active) s.members)
        member_ids)
      guarantor_inactive

-- `applyMultiplier`
unfoldable pub apply_multiplier : ℕ → ℕ → ℕ
apply_multiplier base multiplier_hundredths = base * multiplier_hundredths / 100

-- `calculateLegacyDevelopmentTotalDue`
unfoldable pub calculate_total_due : ℕ → ℕ → ℕ
calculate_total_due principal interest_rate_hundredths =
    (principal * (10000 + interest_rate_hundredths) + 9999) / 10000

abbrev pub audit : ℕ → Action → Option ℕ → Db → Db
audit loan_id action actor_id s = record s {
  audits = s.audits ++ record { loan_id = some loan_id; action = action; actor_id = actor_id } ∷ [];
}

-- `UPDATE loans SET status = … WHERE id = …`
abbrev pub set_loan_status : ℕ → LoanStatus → Db → Db
set_loan_status loan_id status s = record s {
  loans = update_where (λ l. l.id == loan_id) (λ l. record l { status = status }) s.loans;
}
