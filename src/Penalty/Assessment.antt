-- ===== src/Penalty/Assessment.antt =====
-- The writes of `assessContribution` (jobs/penalties.ts), and the whole of it.
use mduara_api.Prelude.{
  ℕ, ◌+◌, ◌-◌, Bool, true, false, not, ◌&&◌, Option, none, some, List, [], ◌∷◌, ◌++◌, find,
  sum_where, update_where, ltb, leb, ◌==◌, if◌then◌else◌,
}
use mduara_api.Prelude.Int.{pos}
use mduara_api.Prelude.Text.{Text, codes}
use mduara_api.Prelude.Outcome.{Outcome, ok, err, ◌>>=◌, require}
use mduara_api.Ledger.Types
use mduara_api.Ledger.Journals.{record_member_charge, penalty, Charge}
use mduara_api.Commitment.Types.{
  State, held, at_risk, default_triggered, defaulted, is_held, is_active,
}
use mduara_api.Commitment.Service.{is_at_risk, is_default_triggered}
use mduara_api.Penalty.Fees.{contribution_penalty}
use mduara_api.Penalty.Queries.{
  latest, lexicographic, rule_of, constitution_of, grace, default_threshold, is_due,
  has_clean_reconciliation, next_consecutive_miss_count,
}
use mduara_api.Penalty.Types.{
  late, Contribution, Group, ContributionRule, LiveDeposit, Tables, Failure, invalid_fee, ledger,
}

abbrev pub is_live : State → Bool
is_live held = true
is_live at_risk = true
is_live default_triggered = true
is_live _ = false

abbrev pub live_deposit : ℕ → List LiveDeposit → Option LiveDeposit
live_deposit member_id =
    latest (λ d. d.membership_id == member_id && is_live d.state)
      (λ d e. lexicographic d.cycle_no e.cycle_no (ltb e.created_at d.created_at))

-- `UPDATE commitment_deposits SET state = … WHERE id = … AND state = …`
abbrev pub move_deposit : ℕ → (State → Bool) → State → List LiveDeposit → List LiveDeposit
move_deposit id from to =
    update_where (λ d. d.id == id && from d.state) (λ d. record d { state = to })

-- The deposit that is found first moves to `at_risk`, then, from the threshold on, to
-- `default_triggered`.
abbrev pub escalate_deposit : Bool → Option LiveDeposit → List LiveDeposit → List LiveDeposit
escalate_deposit defaults none ds = ds
escalate_deposit defaults (some d) ds =
    let moved = if is_held d.state then move_deposit d.id is_held at_risk ds else ds in
    if defaults && not (is_default_triggered d.state)
    then move_deposit d.id is_at_risk default_triggered moved
    else moved

-- `applyMissEscalation`
unfoldable pub apply_miss_escalation : Contribution → ℕ → ℕ → Tables → Tables
apply_miss_escalation c threshold miss_count s =
    let defaults = leb threshold miss_count in
    record s {
      deposits = escalate_deposit defaults (live_deposit c.member_id s.deposits) s.deposits;
      memberships =
          update_where (λ m. defaults && m.id == c.member_id && is_active m.status)
            (λ m. record m { status = defaulted }) s.memberships;
    }

abbrev pub lift_ledger {ℓ} : {A : Type ℓ} → Outcome Types.Failure A → Outcome Failure A
lift_ledger (ok a) = ok a
lift_ledger (err e) = err (ledger e)

abbrev pub fee_for : Option ContributionRule → ℕ → Option ℕ
fee_for none unpaid = some 0
fee_for (some r) unpaid =
    if unpaid == 0
    then some 0
    else contribution_penalty (pos unpaid) r.late_fee_type r.late_fee r.late_fee_percentage

abbrev pub currency_of : Contribution → List Group → Text
currency_of c gs = elim (find (λ g. g.id == c.chama_id) gs) [ none ↦ [] | some g ↦ g.currency ]

-- The charge of a fee, under a reference with the contribution's id.
abbrev pub charge_of : Contribution → ℕ → Tables → Charge
charge_of c fee s = record {
  kind = penalty;
  reference = codes "contribution-penalty:" ++ c.id ∷ [];
  chama_id = c.chama_id;
  member_id = c.member_id;
  amount = pos fee;
  currency = currency_of c s.groups;
}

-- The journal of a fee above 0, and its penalty.
unfoldable pub charge : Contribution → ℕ → Tables → Outcome Failure Tables
charge c fee s = if fee == 0 then ok s else do
  posted ← lift_ledger (record_member_charge (charge_of c fee s) s.ledger)
  ok (record s {
    ledger = posted.1;
    penalties =
        s.penalties
        ++ record {
          contribution_id = c.id;
          member_id = c.member_id;
          amount = fee;
          ledger_transaction_id = posted.0;
        }
          ∷ [];
  })

abbrev pub deadline_of : (ℕ → ℕ) → Tables → Contribution → ℕ
deadline_of midnight s c = midnight (c.due_date + 1 + grace (rule_of c s.rules))

-- The confirmed payments of a contribution, all of them or those before a time.
abbrev pub paid_in_all : ℕ → Tables → ℕ
paid_in_all id s = sum_where (λ p. p.contribution_id == id) (λ p. p.amount) s.payments

abbrev pub paid_before : ℕ → ℕ → Tables → ℕ
paid_before id time s =
    sum_where (λ p. p.contribution_id == id && ltb p.paid_at time) (λ p. p.amount) s.payments

-- The subtraction stops at 0, as the source writes out.
abbrev pub unpaid_at_deadline : (ℕ → ℕ) → Tables → Contribution → ℕ
unpaid_at_deadline midnight s c = c.expected_amount - paid_before c.id (deadline_of midnight s c) s

abbrev pub misses_now : ℕ → Contribution → Tables → ℕ
misses_now unpaid c s = if unpaid == 0 then 0 else next_consecutive_miss_count c s.contributions

abbrev pub checked_row : ℕ → ℕ → ℕ → ℕ → ℕ → Contribution → Contribution
checked_row now deadline unpaid total misses c = record c {
  penalty_checked_at = some now;
  missed_at = if unpaid == 0 then none else some deadline;
  consecutive_miss_count = misses;
  status = if ltb total c.expected_amount then late else c.status;
}

abbrev pub escalate : Contribution → ℕ → ℕ → Tables → Tables
escalate c unpaid misses s =
    if unpaid == 0
    then s
    else apply_miss_escalation c (default_threshold (constitution_of c s.acceptances)) misses s

abbrev pub check_contribution : (ℕ → ℕ) → ℕ → Contribution → Tables → Tables → Tables
check_contribution midnight now c s t = record t {
  contributions =
      update_where (λ b. b.id == c.id)
        (checked_row now (deadline_of midnight s c) (unpaid_at_deadline midnight s c)
          (paid_in_all c.id s) (misses_now (unpaid_at_deadline midnight s c) c s))
        t.contributions;
}

-- A contribution whose window has a clean reconciliation.
unfoldable pub assess_due : (ℕ → ℕ) → ℕ → Contribution → Tables → Outcome Failure (Bool × Tables)
unfolding charge
assess_due midnight now c s = do
  let unpaid = unpaid_at_deadline midnight s c
  fee ← require (fee_for (rule_of c s.rules) unpaid) invalid_fee
  t ← charge c fee s
  ok (ltb 0 fee, escalate c unpaid (misses_now unpaid c s) (check_contribution midnight now c s t))

unfoldable pub assess_found :
    (ℕ → ℕ) → Text → ℕ → Tables → Option Contribution → Outcome Failure (Bool × Tables)
unfolding assess_due has_clean_reconciliation
assess_found midnight provider now s none = ok (false, s)
assess_found midnight provider now s (some c) =
    if has_clean_reconciliation provider (midnight c.due_date) (deadline_of midnight s c) s
    then assess_due midnight now c s
    else ok (false, s)

abbrev pub due_contribution : (ℕ → ℕ) → ℕ → ℕ → Tables → Option Contribution
due_contribution midnight id now s =
    find (λ c. c.id == id && is_due midnight now s c) s.contributions

-- The answer says whether a fee was charged.
unfoldable pub assess_contribution :
    (ℕ → ℕ) → Text → ℕ → ℕ → Tables → Outcome Failure (Bool × Tables)
unfolding assess_found
assess_contribution midnight provider id now s =
    assess_found midnight provider now s (due_contribution midnight id now s)
