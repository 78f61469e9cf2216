-- ===== src/Payment/Types.antt =====
-- The tables that services/payment.service.ts reads and writes, beside those of Trust.Types.
use mduara_api.Prelude.{ℕ, Option, List}
use mduara_api.Prelude.Int.{ℤ}
use mduara_api.Prelude.Text.{Text}
use mduara_api.Ledger.Types.{Ledger}
use mduara_api.Trust.Types.{PaymentStatus, Records}

-- A row of payment_provider_logs.
pub record ProviderLog : Type 0 where
  pub id : ℕ
  pub user_id : Option ℕ
  pub contribution_id : Option ℕ
  pub chama_id : Option ℕ
  pub member_id : Option ℕ
  pub checkout_request_id : Option Text
  pub amount : ℕ
  pub phone_number : Text
  pub status : PaymentStatus
  pub result_code : Option ℤ
  pub receipt_number : Option Text

pub data AuditAction : Type 0 where
  amount_mismatch_seen payment_confirmed : AuditAction

pub record Audit : Type 0 where
  pub action : AuditAction
  pub log_id : ℕ

pub record Tables : Type 0 where
  pub records : Records
  pub logs : List ProviderLog
  pub ledger : Ledger
  pub audits : List Audit
  pub next_id : ℕ

pub data Failure : Type 0 where
  amount_invalid contribution_not_found membership_inactive not_payable already_paid : Failure
  exceeds_remaining phone_invalid gateway_failed : Failure
  callback_invalid checkout_unknown context_missing metadata_invalid amount_mismatch : Failure
  receipt_conflict reference_taken overpaid membership_not_found unreadable_number : Failure

-- A value of the callback's metadata: a text, an integral number, or another number as its text.
pub data MetaValue : Type 0 where
  text : Text → MetaValue
  number : ℤ → MetaValue
  fraction : Text → MetaValue

-- `Body.stkCallback`; an item without a name is not listed.
pub record StkCallback : Type 0 where
  pub checkout_request_id : Option Text
  pub result_code : Option ℤ
  pub items : List (Text × MetaValue)
