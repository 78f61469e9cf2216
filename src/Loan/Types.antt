-- ===== src/Loan/Types.antt =====
-- The tables that services/loan.service.ts reads and writes.
use mduara_api.Prelude.{ℕ, Bool, Option, List}
use mduara_api.Prelude.Text.{Text}
use mduara_api.Ledger.Types.{Ledger}
use mduara_api.Ledger.Types
use mduara_api.Roles.{Role}

pub data LoanStatus : Type 0 where
  pending awaiting_guarantors pending_admin_approval partially_approved approved : LoanStatus
  disbursement_pending disbursement_failed disbursed active partially_repaid : LoanStatus
  repaid rejected defaulted cancelled : LoanStatus

-- `payment_status` and `repayment_status`.
pub data PaymentStatus : Type 0 where
  pending confirmed failed reversed : PaymentStatus

-- A row of chama_members joined to its user.
pub record Member : Type 0 where
  pub id : ℕ
  pub chama_id : ℕ
  pub user_id : ℕ
  pub role : Role
  pub is_active : Bool
  pub phone : Option Text

pub record Loan : Type 0 where
  pub id : ℕ
  pub chama_id : ℕ
  pub member_id : ℕ
  pub principal_amount : ℕ
  pub total_due : ℕ
  pub status : LoanStatus

pub record Guarantee : Type 0 where
  pub loan_id : ℕ
  pub member_id : ℕ
  pub guaranteed_amount : ℕ
  pub is_approved : Bool

-- The rate in hundredths of a per cent, the multiplier in hundredths: the columns are
-- NUMERIC(5,2), so the code's `Math.round(x * 100)` is these numbers.
pub record Rule : Type 0 where
  pub chama_id : ℕ
  pub interest_rate_hundredths : ℕ
  pub multiplier_hundredths : ℕ
  pub min_guarantors : ℕ
  pub max_term_days : Option ℕ
  pub interest_cycle_days : Option ℕ

pub record Disbursement : Type 0 where
  pub loan_id : ℕ
  pub amount : ℕ
  pub status : PaymentStatus
  pub provider_reference : Option Text
  pub dispatched_at : Option ℕ

pub record Repayment : Type 0 where
  pub loan_id : ℕ
  pub amount : ℕ
  pub status : PaymentStatus

-- A row of contribution_payments.
pub record Payment : Type 0 where
  pub member_id : ℕ
  pub amount : ℕ
  pub is_confirmed : Bool

pub data Action : Type 0 where
  applied guarantor_accepted treasurer_approved chair_approved dispatched dispatch_failed : Action
  rejected_by_leader repayment_submitted payout_failed payout_confirmed payout_timeout : Action
  rule_updated : Action

pub record Audit : Type 0 where
  pub loan_id : Option ℕ
  pub action : Action
  pub actor_id : Option ℕ

pub record Db : Type 0 where
  pub ledger : Ledger
  pub members : List Member
  pub loans : List Loan
  pub guarantees : List Guarantee
  pub rules : List Rule
  pub disbursements : List Disbursement
  pub repayments : List Repayment
  pub payments : List Payment
  pub audits : List Audit
  pub next_id : ℕ

pub data Failure : Type 0 where
  pricing_policy_unapproved disbursement_policy_unapproved membership_inactive : Failure
  active_loan_capacity rule_not_configured min_guarantors_not_met term_exceeded : Failure
  capacity_exceeded self_guarantee duplicate_guarantor guarantor_inactive loan_not_found : Failure
  guarantor_forbidden not_awaiting_guarantors collateral_insufficient : Failure
  collateral_incomplete treasurer_approval_required chair_approval_required : Failure
  treasurer_approval_missing payout_phone_missing chama_not_found treasury_insufficient : Failure
  approval_state_invalid disbursement_state_invalid payout_dispatch_failed : Failure
  reject_role_forbidden reject_state_invalid reconciliation_required : Failure
  repay_borrower_only not_repayable repayment_exceeds_outstanding : Failure
  result_invalid disbursement_not_found transaction_id_missing amount_mismatch : Failure
  rule_role_forbidden : Failure
  ledger : Types.Failure → Failure
