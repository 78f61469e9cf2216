-- ===== src/Subscription/Types.antt =====
-- The tables that services/subscription.service.ts reads and writes.
use mduara_api.Prelude.{ℕ, Bool, Option, List}
use mduara_api.Prelude.Int.{ℤ}
use mduara_api.Prelude.Text.{Text}
use mduara_api.Roles.{Role}
use mduara_api.Ledger.Types.{Ledger}
use mduara_api.Subscription.Calendar.{Frequency}

pub data Tier : Type 0 where
  free premium : Tier

pub data SubscriptionStatus : Type 0 where
  active paused cancelled : SubscriptionStatus

pub data PaymentStatus : Type 0 where
  pending paid failed refunded : PaymentStatus

pub record Plan : Type 0 where
  pub code : Text
  pub name : Text
  pub tier : Tier
  pub billing_frequency : Frequency
  pub price_amount : Option ℕ
  pub currency : Text
  pub max_members : Option ℕ
  pub max_active_loans : Option ℕ
  pub sms_quota_monthly : Option ℕ
  pub allows_detailed_pdf : Bool
  pub is_active : Bool

-- A row of platform_subscriptions.
pub record Subscription : Type 0 where
  pub id : ℕ
  pub chama_id : ℕ
  pub plan_code : Text
  pub plan_name : Text
  pub billing_frequency : Frequency
  pub amount : ℕ
  pub status : SubscriptionStatus
  pub current_period_start : Option ℕ
  pub current_period_end : Option ℕ
  pub grace_ends_at : Option ℕ

-- A row of subscription_payments.
pub record FeePayment : Type 0 where
  pub id : ℕ
  pub subscription_id : ℕ
  pub chama_id : ℕ
  pub plan_code : Text
  pub billing_frequency : Frequency
  pub amount : ℕ
  pub currency : Text
  pub initiated_by : Option ℕ
  pub phone_number : Text
  pub checkout_request_id : Option Text
  pub receipt_number : Option Text
  pub status : PaymentStatus
  pub result_code : Option ℤ

-- A row of subscription_sms_usage.
pub record SmsUsage : Type 0 where
  pub chama_id : ℕ
  pub period_month : ℕ
  pub used_count : ℕ

pub record Member : Type 0 where
  pub chama_id : ℕ
  pub user_id : ℕ
  pub role : Role
  pub is_active : Bool

-- A loan, and whether its status is none of 'repaid', 'rejected' and 'cancelled'.
pub record LoanRow : Type 0 where
  pub chama_id : ℕ
  pub is_open : Bool

pub record Tables : Type 0 where
  pub chamas : List ℕ
  pub plans : List Plan
  pub subscriptions : List Subscription
  pub payments : List FeePayment
  pub usage : List SmsUsage
  pub members : List Member
  pub loans : List LoanRow
  pub ledger : Ledger
  pub audits : List ℕ
  pub next_id : ℕ

pub data Failure : Type 0 where
  chama_not_found default_plan_missing read_only feature_required : Failure
  member_limit_reached capacity_reached loan_limit_reached : Failure
  membership_inactive role_forbidden plan_not_found plan_inactive plan_not_payable : Failure
  price_not_configured not_configured payment_pending phone_invalid gateway_failed : Failure
  callback_invalid checkout_unknown metadata_invalid amount_mismatch : Failure
  receipt_conflict subscription_not_found unreadable_number : Failure
