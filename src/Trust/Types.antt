-- ===== src/Trust/Types.antt =====
-- The tables that services/trust-score.service.ts and services/payment.service.ts share.
use mduara_api.Prelude.{ℕ, Bool, Option, List}
use mduara_api.Prelude.Text.{Text}

pub data ContributionStatus : Type 0 where
  pending partially_paid paid late waived : ContributionStatus

pub data PaymentStatus : Type 0 where
  pending confirmed failed reversed : PaymentStatus

pub data MemberStatus : Type 0 where
  pending active defaulted suspended exited : MemberStatus

pub record Contribution : Type 0 where
  pub id : ℕ
  pub chama_id : ℕ
  pub member_id : ℕ
  pub expected_amount : ℕ
  pub due_date : ℕ
  pub status : ContributionStatus
  pub missed_at : Option ℕ

-- A row of contribution_payments.
pub record ContributionPayment : Type 0 where
  pub id : ℕ
  pub contribution_id : ℕ
  pub chama_id : ℕ
  pub member_id : ℕ
  pub amount : ℕ
  pub provider_reference : Option Text
  pub status : PaymentStatus
  pub paid_at : ℕ

pub record Member : Type 0 where
  pub id : ℕ
  pub chama_id : ℕ
  pub user_id : ℕ
  pub status : MemberStatus

pub data SubjectType : Type 0 where
  member chama : SubjectType

-- A row of trust_score_formula_versions.
pub record Formula : Type 0 where
  pub id : Text
  pub subject_type : SubjectType
  pub is_active : Bool

pub data Level : Type 0 where
  highly_committed building needs_attention : Level

pub data Factor : Type 0 where
  on_time timeliness no_misses missed_contributions : Factor

-- What the score of a member is calculated from.
pub record Inputs : Type 0 where
  pub due_count : ℕ
  pub on_time_count : ℕ
  pub missed_count : ℕ
  pub status : MemberStatus
  pub latest_payment_at : Option ℕ

-- A row of trust_score_snapshots.
pub record Snapshot : Type 0 where
  pub formula_id : Text
  pub chama_id : ℕ
  pub member_id : ℕ
  pub score : ℕ
  pub level : Level
  pub factors : List Factor
  pub calculation_key : Text

pub record Records : Type 0 where
  pub contributions : List Contribution
  pub payments : List ContributionPayment
  pub members : List Member
  pub formulas : List Formula
  pub snapshots : List Snapshot
