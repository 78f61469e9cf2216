-- ===== src/Loan/Service/Rules.antt =====
-- `LoanService.upsertRule` (services/loan.service.ts).
use mduara_api.Prelude.{ℕ, Option, none, some, [], ◌∷◌, ◌++◌, find, update_where, ◌==◌}
use mduara_api.Prelude.Outcome.{Outcome, ok, ◌>>=◌, ◌>>◌, guard}
use mduara_api.Roles.{is_financial}
use mduara_api.Loan.Types.{Rule, rule_updated, Db, Failure, rule_role_forbidden}
use mduara_api.Loan.Queries.{get_active_membership}

-- `UpsertLoanRuleInput`, as the columns hold its numbers; `interestCycleDays` may be undefined, null
-- or a number.
pub record RuleInput : Type 0 where
  pub interest_rate_hundredths : ℕ
  pub multiplier_hundredths : ℕ
  pub min_guarantors : ℕ
  pub max_term_days : Option ℕ
  pub interest_cycle_days : Option (Option ℕ)

abbrev pub cycle_or : Option (Option ℕ) → Option ℕ → Option ℕ
cycle_or none days = days
cycle_or (some given) days = given

-- The row of the input, with the cycle for an input that leaves it out.
abbrev pub rule_row : ℕ → RuleInput → Option ℕ → Rule
rule_row chama_id input days = record {
  chama_id = chama_id;
  interest_rate_hundredths = input.interest_rate_hundredths;
  multiplier_hundredths = input.multiplier_hundredths;
  min_guarantors = input.min_guarantors;
  max_term_days = input.max_term_days;
  interest_cycle_days = cycle_or input.interest_cycle_days days;
}

-- `INSERT … ON CONFLICT (chama_id) DO UPDATE`
abbrev pub write_rule : Option Rule → ℕ → RuleInput → Db → Db
write_rule none chama_id input s = record s { rules = s.rules ++ rule_row chama_id input none ∷ [] }
write_rule (some rule) chama_id input s = record s {
  rules =
      update_where (λ r. r.chama_id == chama_id)
        (λ r. rule_row chama_id input r.interest_cycle_days) s.rules;
}

-- The audit names no loan.
abbrev pub audit_rule : ℕ → Db → Db
audit_rule user_id s = record s {
  audits =
      s.audits ++ record { loan_id = none; action = rule_updated; actor_id = some user_id } ∷ [];
}

unfoldable pub upsert_rule : ℕ → ℕ → RuleInput → Db → Outcome Failure (Unit {0} × Db)
upsert_rule user_id chama_id input s = do
  membership ← get_active_membership chama_id user_id s
  guard (is_financial membership.role) rule_role_forbidden
  ok (
    tt,
    audit_rule user_id (write_rule (find (λ r. r.chama_id == chama_id) s.rules) chama_id input s),
  )
