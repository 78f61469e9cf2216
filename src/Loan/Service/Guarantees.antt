-- ===== src/Loan/Service/Guarantees.antt =====
-- `LoanService.acceptGuarantee` (services/loan.service.ts).
use mduara_api.Prelude.{
  ℕ, ◌-◌, Bool, true, false, ◌&&◌, Option, some, find, any, update_where, leb, ◌==◌, if◌then◌else◌,
}
use mduara_api.Prelude.Outcome.{Outcome, ok, ◌>>=◌, ◌>>◌, guard, require}
use mduara_api.Loan.Types.{
  LoanStatus, awaiting_guarantors, pending_admin_approval, Loan, Guarantee, Rule, Db, Failure,
  guarantor_forbidden, not_awaiting_guarantors, collateral_insufficient, guarantor_accepted,
}
use mduara_api.Loan.Queries.{
  get_loan_for_update, get_active_loan_rule, member_savings, locked_guarantees, coverage_amount,
  approved_count, is_collateralised, set_loan_status, audit,
}

pub record Acceptance : Type 0 where
  pub guaranteed_amount : ℕ
  pub loan_status : LoanStatus
  pub coverage : ℕ
  pub approvals : ℕ
  pub replayed : Bool

-- `getNominatedGuaranteeForUpdate`
abbrev pub get_nominated_guarantee : ℕ → ℕ → Db → Option Guarantee
get_nominated_guarantee loan_id user_id s =
    find
      (λ g.
        g.loan_id == loan_id
        && any (λ m. m.id == g.member_id && m.user_id == user_id && m.is_active) s.members)
      s.guarantees

abbrev pub is_awaiting_guarantors : LoanStatus → Bool
is_awaiting_guarantors awaiting_guarantors = true
is_awaiting_guarantors _ = false

-- The row is unique for a loan and a member.
abbrev pub approve_guarantee : Guarantee → Db → Db
approve_guarantee g s = record s {
  guarantees =
      update_where (λ h. h.loan_id == g.loan_id && h.member_id == g.member_id)
        (λ h. record h { is_approved = true }) s.guarantees;
}

abbrev pub acceptance : Loan → Guarantee → LoanStatus → Bool → Db → Acceptance
acceptance loan g status replayed s = record {
  guaranteed_amount = g.guaranteed_amount;
  loan_status = status;
  coverage = coverage_amount loan.id s.guarantees;
  approvals = approved_count loan.id s.guarantees;
  replayed = replayed;
}

-- The status moves on when the approved pledges cover the principal and are enough in number.
abbrev pub status_after : Loan → Rule → Db → LoanStatus
status_after loan rule s =
    if is_collateralised loan rule s.guarantees then pending_admin_approval else loan.status

abbrev pub advance : Loan → Rule → Db → Db
advance loan rule s =
    if is_collateralised loan rule s.guarantees
    then set_loan_status loan.id pending_admin_approval s
    else s

-- What a first acceptance does.
unfoldable pub pledge : ℕ → Loan → Guarantee → Db → Outcome Failure (Acceptance × Db)
pledge user_id loan g s = do
  guard (is_awaiting_guarantors loan.status) not_awaiting_guarantors
  guard
      (leb g.guaranteed_amount
        (member_savings g.member_id s - locked_guarantees g.member_id loan.id s))
      collateral_insufficient
  let s' = approve_guarantee g s
  rule ← get_active_loan_rule loan.chama_id s'
  ok (
    acceptance loan g (status_after loan rule s') false s',
    audit loan.id guarantor_accepted (some user_id) (advance loan rule s'),
  )

unfoldable pub accept_guarantee : ℕ → ℕ → Db → Outcome Failure (Acceptance × Db)
unfolding pledge
accept_guarantee user_id loan_id s = do
  loan ← get_loan_for_update loan_id s
  g ← require (get_nominated_guarantee loan_id user_id s) guarantor_forbidden
  if g.is_approved then ok (acceptance loan g loan.status true s, s) else pledge user_id loan g s
