-- ===== src/Ledger/Types.antt =====
-- The rows of the ledger's tables and the values of its operations (shared/business-logic.ts).
-- An id stands for a uuid: ids are compared and ordered, never computed with.
use mduara_api.Prelude.{ℕ, Bool, Option, List}
use mduara_api.Prelude.Int.{ℤ}
use mduara_api.Prelude.Text.{Text}

pub data Account : Type 0 where
  chama_treasury member_contribution member_payout external_clearing : Account
  member_penalty_receivable penalty_income member_interest_receivable interest_income : Account
  commitment_escrow commitment_forfeiture member_loan_principal loan_default_recovery : Account
  platform_fee_revenue : Account

pub data Side : Type 0 where
  debit credit : Side

-- `operation_type` of a journal: those of `OperationType`, of a charge,
-- of a commitment and of a subscription.
pub data OperationType : Type 0 where
  deposit payout transfer contribution_penalty loan_interest : OperationType
  commitment_hold commitment_refund commitment_forfeiture platform_fee : OperationType

-- The amount is a checked one: `assertPositiveAmount` stands before every entry.
pub record Entry : Type 0 where
  pub chama_id : ℕ
  pub member_id : Option ℕ
  pub account : Account
  pub side : Side
  pub amount : ℕ

-- A row of ledger_transactions with its rows of ledger_entries, which share one currency.
pub record Transaction : Type 0 where
  pub id : ℕ
  pub operation_type : OperationType
  pub reference : Text
  pub initiated_by : Option ℕ
  pub currency : Text
  pub entries : List Entry

pub record Chama : Type 0 where
  pub id : ℕ
  pub pooled_amount : ℕ

-- `next_id` is the id that the database generates next.
pub record Ledger : Type 0 where
  pub chamas : List Chama
  pub transactions : List Transaction
  pub next_id : ℕ

pub data Failure : Type 0 where
  amount_not_positive same_chama reference_required charge_not_positive : Failure
  treasury_not_found : Option ℕ → Failure
  insufficient_treasury_funds : ℕ → Failure
  idempotency_conflict unique_violation : Text → Failure

pub record OperationResult : Type 0 where
  pub ledger_transaction_id : ℕ
  pub balances : List (ℕ × ℕ)
  pub replayed : Bool

-- The optional fields of `BaseOperation`, less the metadata, which nothing here reads.
pub record BaseOperation : Type 0 where
  pub reference : Text
  pub initiated_by : Option ℕ
  pub currency : Option Text

pub record PreparedOperation : Type 0 where
  pub operation_type : OperationType
  pub reference : Text
  pub initiated_by : Option ℕ
  pub currency : Text
  pub deltas : List (ℕ × ℤ)
  pub entries : List Entry
