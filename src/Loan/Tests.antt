-- ===== src/Loan/Tests.antt =====
-- Runs of the operations of members and officials (services/loan.service.ts), and the theorems
-- about them at these runs.
use mduara_api.Prelude.{Bool}
use mduara_api.Loan.Types.{awaiting_guarantors, pending_admin_approval, Guarantee}
use mduara_api.Loan.Service.{Acceptance, accept_guarantee}
use mduara_api.Prelude.{
  ℕ, ◌-◌, ◌≤◌, ◌≡◌, refl, true, false, ◌==◌, Option, none, some, List, [], ◌∷◌, map, update_where,
}
use mduara_api.Prelude.Int.{pos}
use mduara_api.Prelude.Text.{Text, codes}
use mduara_api.Prelude.Outcome.{ok, err}
use mduara_api.Roles.{chairperson, member, role_eq}
use mduara_api.Ledger.Triggers.{pooled}
use mduara_api.Loan.Types.{
  active, partially_approved, disbursement_pending, disbursement_failed, confirmed, failed, Member,
  Loan, Rule, Db, payout_dispatch_failed, rule_role_forbidden,
}
use mduara_api.Loan.Queries.{
  find_loan, get_active_membership, get_active_loan_rule, reserved_funds, coverage_amount,
  approved_count,
}
use mduara_api.Loan.Service.{
  Decision, Dispatch, approve, approve_and_dispatch, treasurer_has_approved,
  record_repayment_intent, RuleInput, upsert_rule,
}
use mduara_api.Loan.Requests.{Request, serve, serve_all}
use mduara_api.Loan.Histories.{Develops, serve_all-Develops}
use mduara_api.Loan.Approvals.{approve-checks, approve_and_dispatch-refused}
use mduara_api.Loan.Samples.{loan_in, borrower, payout, tables, result, db_of}

abbrev new_rule : RuleInput
new_rule = record {
  interest_rate_hundredths = 1250;
  multiplier_hundredths = 200;
  min_guarantors = 2;
  max_term_days = some 90;
  interest_cycle_days = some (some 30);
}

-- A change that leaves the cycle out keeps it, and one that gives null clears it.
cycle_kept :
    map
      (λ r. r.interest_cycle_days)
      (serve_all
        (Request.rule_change 22 1 new_rule
          ∷ Request.rule_change 22 1 (record new_rule { interest_cycle_days = none })
          ∷ [])
        (tables active [])).rules
    ≡ some 30 ∷ []
unfolding serve upsert_rule
cycle_kept = refl

cycle_cleared :
    map
      (λ r. r.interest_cycle_days)
      (serve_all
        (Request.rule_change 22 1 new_rule
          ∷ Request.rule_change 22 1 (record new_rule { interest_cycle_days = some none })
          ∷ [])
        (tables active [])).rules
    ≡ none ∷ []
unfolding serve upsert_rule
cycle_cleared = refl

not_an_official : upsert_rule 21 1 new_rule (tables active []) ≡ err rule_role_forbidden
unfolding upsert_rule
not_an_official = refl

abbrev requests : List Request
requests =
    Request.approval false 22 5
    ∷ Request.dispatch 22 5 (codes "AG_1") 50
    ∷ Request.timeout (result (pos 0))
    ∷ Request.rejection 22 5
    ∷ Request.rule_change 22 1 new_rule
    ∷ []

serve_all-Develops_example :
    Develops
      (some (loan_in partially_approved))
      (find_loan 5 (serve_all requests (tables partially_approved [])).loans)
serve_all-Develops_example = serve_all-Develops 5 requests (tables partially_approved [])

abbrev approved_tables : Db
unfolding approve
approved_tables = db_of (approve false 22 5 (tables partially_approved []))

abbrev to_pay : Dispatch
to_pay = record { amount = 300; phone_number = codes "254700000001"; reference = 5 }

abbrev final : Decision
final = record { status = disbursement_pending; dispatch = some to_pay }

approve-checks_example :
    (loan : Loan) × (rule : Rule) × (m : Member) × (treasury : ℕ) × (find_loan 5
        (loan_in partially_approved ∷ [])
      ≡ some loan)
    × (loan.status ≡ partially_approved)
    × (get_active_membership loan.chama_id 22 (tables partially_approved []) ≡ ok m)
    × (role_eq m.role chairperson ≡ true)
    × (treasurer_has_approved loan.id (tables partially_approved []) ≡ true)
    × (get_active_loan_rule loan.chama_id (tables partially_approved []) ≡ ok rule)
    × (loan.principal_amount ≤ coverage_amount loan.id (tables partially_approved []).guarantees)
    × (rule.min_guarantors ≤ approved_count loan.id (tables partially_approved []).guarantees)
    × (pooled loan.chama_id (tables partially_approved []).ledger.chamas ≡ some treasury)
    × (loan.principal_amount
        ≤ treasury - reserved_funds loan.chama_id loan.id (tables partially_approved []))
unfolding approve
approve-checks_example =
    approve-checks false 22 5 (tables partially_approved []) {decision = final}
      {s' = approved_tables} refl refl

-- A gateway that refuses every payout.
abbrev no_gateway : Dispatch → Option Text
no_gateway d = none

approve_and_dispatch-refused_example :
    (loan : Loan) × (t : Db) × (approve_and_dispatch no_gateway false 22 5 40
        (tables partially_approved [])
      ≡ (err payout_dispatch_failed, t))
    × (find_loan 5 t.loans ≡ some (record loan { status = disbursement_failed }))
    × (t.disbursements
        ≡ update_where
            (λ d. d.loan_id == 5)
            (λ d. record d { status = failed })
            approved_tables.disbursements)
    × (t.ledger ≡ approved_tables.ledger)
unfolding approve
approve_and_dispatch-refused_example =
    approve_and_dispatch-refused no_gateway false 22 5 40 (tables partially_approved [])
      {decision = final} {s' = approved_tables} {payout = to_pay} refl refl refl

abbrev repaying : Db
unfolding record_repayment_intent
repaying = db_of (record_repayment_intent false 21 5 330 (tables active (payout confirmed ∷ [])))

-- A member who has saved 400 is nominated for 300, all that the loan needs.
abbrev pledge_row : Bool → Guarantee
pledge_row is_approved = record {
  loan_id = 5;
  member_id = 13;
  guaranteed_amount = 300;
  is_approved = is_approved;
}

abbrev guarantor : Member
guarantor = record {
  id = 13;
  chama_id = 1;
  user_id = 33;
  role = member;
  is_active = true;
  phone = none;
}

abbrev nominated : Db
nominated = record (tables awaiting_guarantors []) {
  members = borrower ∷ guarantor ∷ [];
  guarantees = pledge_row false ∷ [];
  payments = record { member_id = 13; amount = 400; is_confirmed = true } ∷ [];
}

abbrev pledged_tables : Db
unfolding accept_guarantee
pledged_tables = db_of (accept_guarantee 33 5 nominated)

abbrev pledged_answer : Acceptance
pledged_answer = record {
  guaranteed_amount = 300;
  loan_status = pending_admin_approval;
  coverage = 300;
  approvals = 1;
  replayed = false;
}
