-- ===== src/Loan/Service/Apply.antt =====
-- `LoanService.apply` (services/loan.service.ts), the schema of its input
-- (validation/loan.validation.ts) and the plan limit that it asserts
-- (services/subscription.service.ts).
use mduara_api.Prelude.{
  ℕ, ◌+◌, ◌*◌, Bool, true, false, not, ◌&&◌, Option, none, some, List, [], ◌∷◌, ◌++◌, map, any, all,
  length, count_where, ltb, leb, ◌==◌,
}
use mduara_api.Prelude.Outcome.{Outcome, ok, ◌>>=◌, ◌>>◌, guard, refuse}
use mduara_api.Loan.Types.{
  Loan, Guarantee, Rule, Db, Failure, awaiting_guarantors, pricing_policy_unapproved,
  active_loan_capacity, min_guarantors_not_met, term_exceeded, capacity_exceeded, self_guarantee,
  applied,
}
use mduara_api.Loan.Queries.{
  get_active_membership, get_active_loan_rule, member_savings, releases, assert_active_guarantors,
  apply_multiplier, calculate_total_due, audit,
}

-- `ApplyLoanInput`: times in milliseconds; the purpose is only stored.
pub record ApplyInput : Type 0 where
  pub chama_id : ℕ
  pub amount : ℕ
  pub due_date : Option ℕ
  pub guarantors : List (ℕ × ℕ)

abbrev pub pledged : List (ℕ × ℕ) → ℕ
pledged [] = 0
pledged ((member_id, amount) ∷ gs) = amount + pledged gs

-- `applyLoanSchema`
abbrev pub is_valid_application : ApplyInput → Bool
is_valid_application input =
    ltb 0 input.amount
    && leb input.amount 9007199254740991
    && all (λ g. ltb 0 g.1 && leb g.1 9007199254740991) input.guarantors
    && leb 1 (length input.guarantors)
    && leb (length input.guarantors) 20
    && leb input.amount (pledged input.guarantors)

-- `assertActiveLoanCapacity`. The access is what `assertSubscriptionWriteAccess` returned:
-- nothing if it threw, else the plan's limit of active loans, if it has one.
abbrev pub has_active_loan_capacity : Option (Option ℕ) → ℕ → List Loan → Bool
has_active_loan_capacity none chama_id loans = false
has_active_loan_capacity (some none) chama_id loans = true
has_active_loan_capacity (some (some limit)) chama_id loans =
    ltb (count_where (λ l. l.chama_id == chama_id && not (releases l.status)) loans) limit

abbrev pub exceeds_term : Option ℕ → Option ℕ → ℕ → Bool
exceeds_term none due now = false
exceeds_term (some days) none now = false
exceeds_term (some days) (some due) now = ltb (now + days * 86400000) due

abbrev pub guarantee_rows : ℕ → List (ℕ × ℕ) → List Guarantee
guarantee_rows loan_id [] = []
guarantee_rows loan_id ((member_id, amount) ∷ gs) =
    record {
      loan_id = loan_id;
      member_id = member_id;
      guaranteed_amount = amount;
      is_approved = false;
    }
    ∷ guarantee_rows loan_id gs

abbrev pub new_loan : ℕ → ApplyInput → ℕ → Rule → Loan
new_loan id input member_id rule = record {
  id = id;
  chama_id = input.chama_id;
  member_id = member_id;
  principal_amount = input.amount;
  total_due = calculate_total_due input.amount rule.interest_rate_hundredths;
  status = awaiting_guarantors;
}

-- In production pricing is blocked. The result is the new loan.
unfoldable pub apply :
    Bool → Option (Option ℕ) → ℕ → ℕ → ApplyInput → Db → Outcome Failure (Loan × Db)
apply production access now user_id input s = do
  refuse production pricing_policy_unapproved
  membership ← get_active_membership input.chama_id user_id s
  guard (has_active_loan_capacity access input.chama_id s.loans) active_loan_capacity
  rule ← get_active_loan_rule input.chama_id s
  refuse (ltb (length input.guarantors) rule.min_guarantors) min_guarantors_not_met
  refuse (exceeds_term rule.max_term_days input.due_date now) term_exceeded
  guard
      (leb input.amount
        (apply_multiplier (member_savings membership.id s) rule.multiplier_hundredths))
      capacity_exceeded
  refuse (any (λ g. g.0 == membership.id) input.guarantors) self_guarantee
  assert_active_guarantors input.chama_id (map (λ g. g.0) input.guarantors) s
  let loan = new_loan s.next_id input membership.id rule
  ok (
    loan,
    audit loan.id applied (some user_id) (record s {
      loans = s.loans ++ loan ∷ [];
      guarantees = s.guarantees ++ guarantee_rows loan.id input.guarantors;
      next_id = s.next_id + 1;
    }),
  )
