-- ===== src/Penalty/Types.antt =====
-- The rows that jobs/penalties.ts reads and writes. Days are numbered, times are milliseconds.
use mduara_api.Prelude.{ℕ, Bool, Option, List}
use mduara_api.Prelude.Int.{ℤ}
use mduara_api.Prelude.Text.{Text}
use mduara_api.Ledger.Types.{Ledger}
use mduara_api.Ledger.Types
use mduara_api.Commitment.Types.{State, MembershipStatus}
use mduara_api.Penalty.Fees.{FeeType}

pub data ContributionStatus : Type 0 where
  pending partially_paid paid late waived : ContributionStatus

pub record Contribution : Type 0 where
  pub id : ℕ
  pub chama_id : ℕ
  pub member_id : ℕ
  pub expected_amount : ℕ
  pub due_date : ℕ
  pub created_at : ℕ
  pub status : ContributionStatus
  pub penalty_checked_at : Option ℕ
  pub missed_at : Option ℕ
  pub consecutive_miss_count : ℕ

-- A row of chamas, as far as it is read here.
pub record Group : Type 0 where
  pub id : ℕ
  pub is_active : Bool
  pub currency : Text

pub record Membership : Type 0 where
  pub id : ℕ
  pub chama_id : ℕ
  pub status : MembershipStatus

pub record ContributionRule : Type 0 where
  pub id : ℕ
  pub chama_id : ℕ
  pub effective_from : ℕ
  pub effective_to : Option ℕ
  pub grace_period_days : ℕ
  pub late_fee_type : FeeType
  pub late_fee : ℤ
  pub late_fee_percentage : Text

-- An acceptance joined to the Constitution that was accepted.
pub record Acceptance : Type 0 where
  pub membership_id : ℕ
  pub chama_id : ℕ
  pub accepted_at : ℕ
  pub version : ℕ
  pub default_after_consecutive_misses : ℕ

pub record ConfirmedPayment : Type 0 where
  pub contribution_id : ℕ
  pub amount : ℕ
  pub paid_at : ℕ

pub record Run : Type 0 where
  pub provider : Text
  pub is_completed : Bool
  pub mismatch_count : ℕ
  pub window_start : ℕ
  pub window_end : ℕ

pub record LiveDeposit : Type 0 where
  pub id : ℕ
  pub membership_id : ℕ
  pub cycle_no : ℕ
  pub created_at : ℕ
  pub state : State

pub record Penalty : Type 0 where
  pub contribution_id : ℕ
  pub member_id : ℕ
  pub amount : ℕ
  pub ledger_transaction_id : ℕ

pub record Tables : Type 0 where
  pub ledger : Ledger
  pub contributions : List Contribution
  pub groups : List Group
  pub memberships : List Membership
  pub rules : List ContributionRule
  pub acceptances : List Acceptance
  pub payments : List ConfirmedPayment
  pub runs : List Run
  pub deposits : List LiveDeposit
  pub penalties : List Penalty

pub data Failure : Type 0 where
  invalid_fee : Failure
  ledger : Types.Failure → Failure
