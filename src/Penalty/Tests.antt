-- ===== src/Penalty/Tests.antt =====
-- Runs of the penalty worker (jobs/penalties.ts), and the theorems about it at these runs.
use mduara_api.Prelude.{
  ℕ, ◌+◌, ◌*◌, ◌-◌, ◌≤◌, ◌<◌, ◌≡◌, refl, true, false, none, some, [], ◌∷◌, ◌++◌, arith,
}
use mduara_api.Prelude.Int.{pos}
use mduara_api.Prelude.Text.{codes, trim}
use mduara_api.Prelude.Outcome.{ok, err}
use mduara_api.Ledger.Types.{Ledger}
use mduara_api.Ledger.Journals.{Charge, penalty, record_member_charge}
use mduara_api.Ledger.Reconciled.{IsReconciled}
use mduara_api.Commitment.Types.{held, at_risk, active}
use mduara_api.Penalty.Fees.{percentage, contribution_penalty, basis_points, percentage_fee}
use mduara_api.Penalty.FeeBounds.{contribution_penalty-exact, basis_points-decimal}
use mduara_api.Penalty.Types.{Contribution, Tables, partially_paid}
use mduara_api.Penalty.Queries.{rule_of, has_clean_reconciliation}
use mduara_api.Penalty.Assessment.{
  assess_contribution, apply_miss_escalation, due_contribution, deadline_of, unpaid_at_deadline,
  fee_for,
}
use mduara_api.Penalty.Effects.{assess_contribution-charges}

rate : basis_points (codes "7.5") ≡ some 750
unfolding basis_points
rate = refl

no_rate : basis_points (codes "7.") ≡ none
unfolding basis_points
no_rate = refl

contribution_penalty-exact_example : (333 * 750 ≤ 25 * 10000) × (25 * 10000 < 333 * 750 + 10000)
unfolding contribution_penalty basis_points percentage_fee
contribution_penalty-exact_example =
    contribution_penalty-exact 333 (pos 0) (codes "7.5") {points = 750} {charged = 25} refl refl

basis_points-decimal_example : basis_points (codes "12.05") ≡ some 1205
basis_points-decimal_example = basis_points-decimal b'1' (b'2' ∷ []) b'0' b'5' refl refl refl

abbrev empty_ledger : Ledger
empty_ledger = record {
  chamas = record { id = 1; pooled_amount = 0 } ∷ [];
  transactions = [];
  next_id = 70;
}

empty_ledger-IsReconciled : IsReconciled empty_ledger
empty_ledger-IsReconciled = record { treasury = λ i h. ground arith; balanced = tt }

abbrev late_charge : Charge
late_charge = record {
  kind = penalty;
  reference = codes "contribution-penalty:c";
  chama_id = 1;
  member_id = 2;
  amount = pos 25;
  currency = codes "KES";
}

abbrev charged_ledger : Ledger
unfolding record_member_charge
charged_ledger = elim (record_member_charge late_charge empty_ledger) [
  | ok a ↦ a.1
  | err e ↦ empty_ledger
]

-- Midnight in Nairobi, three hours before that of UTC.
abbrev midnight : ℕ → ℕ
midnight day = day * 86400000 - 10800000

-- 600 of 1000 are paid when the two days of grace end, and a clean reconciliation covers them.
abbrev tables : Tables
tables = record {
  ledger = empty_ledger;
  contributions =
      record {
        id = 5;
        chama_id = 1;
        member_id = 2;
        expected_amount = 1000;
        due_date = 100;
        created_at = 0;
        status = partially_paid;
        penalty_checked_at = none;
        missed_at = none;
        consecutive_miss_count = 0;
      }
      ∷ [];
  groups = record { id = 1; is_active = true; currency = codes "KES" } ∷ [];
  memberships = record { id = 2; chama_id = 1; status = active } ∷ [];
  rules =
      record {
        id = 1;
        chama_id = 1;
        effective_from = 0;
        effective_to = none;
        grace_period_days = 2;
        late_fee_type = percentage;
        late_fee = pos 0;
        late_fee_percentage = codes "7.5";
      }
      ∷ [];
  acceptances = [];
  payments =
      record { contribution_id = 5; amount = 600; paid_at = 8000000000 }
      ∷ record { contribution_id = 5; amount = 400; paid_at = 9000000000 }
      ∷ [];
  runs =
      record {
        provider = codes "MPESA";
        is_completed = true;
        mismatch_count = 0;
        window_start = 0;
        window_end = 9000000000;
      }
      ∷ [];
  deposits = record { id = 9; membership_id = 2; cycle_no = 1; created_at = 0; state = held } ∷ [];
  penalties = [];
}

abbrev after : Tables
unfolding assess_contribution
after = elim (assess_contribution midnight (codes "mpesa") 5 9100000000 tables) [
  | ok a ↦ a.1
  | err e ↦ tables
]

at_risk_after :
    after.deposits
    ≡ record { id = 9; membership_id = 2; cycle_no = 1; created_at = 0; state = at_risk } ∷ []
unfolding assess_contribution trim has_clean_reconciliation contribution_penalty basis_points
    percentage_fee record_member_charge apply_miss_escalation
at_risk_after = refl

assess_contribution-charges_example :
    (c : Contribution) × (fee i : ℕ) × (due_contribution midnight 5 9100000000 tables ≡ some c)
    × (has_clean_reconciliation
          (codes "mpesa")
          (midnight c.due_date)
          (deadline_of midnight tables c)
          tables
        ≡ true)
    × (fee_for (rule_of c tables.rules) (unpaid_at_deadline midnight tables c) ≡ some fee)
    × (after.penalties
        ≡ []
          ++ record {
            contribution_id = c.id;
            member_id = c.member_id;
            amount = fee;
            ledger_transaction_id = i;
          }
            ∷ [])
    × (assess_contribution midnight (codes "mpesa") 5 9200000000 after ≡ ok (false, after))
unfolding assess_contribution trim has_clean_reconciliation contribution_penalty basis_points
    percentage_fee record_member_charge
assess_contribution-charges_example =
    assess_contribution-charges midnight (codes "mpesa") 5 9100000000 9200000000 tables {s' = after}
      refl
