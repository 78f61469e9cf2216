-- ===== src/Rotation/Types.antt =====
-- The tables that services/mgr.service.ts reads and writes.
use mduara_api.Prelude.{ℕ, Bool, Option, List}
use mduara_api.Prelude.Text.{Text}
use mduara_api.Ledger.Types
use mduara_api.Ledger.Types.{Ledger}
use mduara_api.Roles.{Role}

pub data CycleStatus : Type 0 where
  active completed cancelled : CycleStatus

pub data TurnStatus : Type 0 where
  scheduled disbursement_pending paid skipped disputed : TurnStatus

pub data AttemptStatus : Type 0 where
  pending dispatched confirmed failed timed_out : AttemptStatus

pub data SwapStatus : Type 0 where
  pending accepted rejected cancelled : SwapStatus

pub data SwapDecision : Type 0 where
  accept reject cancel : SwapDecision

pub record Cycle : Type 0 where
  pub id : ℕ
  pub chama_id : ℕ
  pub current_position : ℕ
  pub status : CycleStatus

-- A row of merry_go_round_payouts.
pub record Turn : Type 0 where
  pub id : ℕ
  pub cycle_id : ℕ
  pub chama_id : ℕ
  pub member_id : ℕ
  pub rotation_position : ℕ
  pub payout_amount : ℕ
  pub scheduled_date : ℕ
  pub status : TurnStatus
  pub receipt_number : Option Text
  pub ledger_transaction_id : Option ℕ

pub record Attempt : Type 0 where
  pub id : ℕ
  pub payout_id : ℕ
  pub attempt_no : ℕ
  pub amount : ℕ
  pub status : AttemptStatus
  pub provider_reference : Option Text
  pub receipt : Option Text

pub record Swap : Type 0 where
  pub id : ℕ
  pub cycle_id : ℕ
  pub requester_payout_id : ℕ
  pub target_payout_id : ℕ
  pub requester_member_id : ℕ
  pub target_member_id : ℕ
  pub status : SwapStatus

pub record Member : Type 0 where
  pub id : ℕ
  pub chama_id : ℕ
  pub user_id : ℕ
  pub role : Role
  pub is_active : Bool
  pub phone : Option Text

-- `can_write` says for which chamas `assertSubscriptionWriteAccess` does not throw.
pub record Tables : Type 0 where
  pub ledger : Ledger
  pub cycles : List Cycle
  pub turns : List Turn
  pub attempts : List Attempt
  pub swaps : List Swap
  pub members : List Member
  pub can_write : ℕ → Bool
  pub next_id : ℕ

pub data Failure : Type 0 where
  cycle_not_found subscription_inactive cycle_not_active membership_inactive : Failure
  swap_self swap_target_not_found swap_turn_not_found swap_turn_not_available : Failure
  swap_pending_exists swap_not_found cancel_forbidden decision_forbidden : Failure
  disburse_forbidden current_turn_not_found payout_state_invalid payout_phone_missing : Failure
  attempt_unresolved treasury_insufficient dispatch_race : Failure
  result_invalid timeout_invalid attempt_not_found receipt_missing amount_invalid : Failure
  amount_mismatch position_conflict : Failure
  bidding_not_configured chama_not_found chama_type_required chama_not_active : Failure
  create_forbidden active_cycle_exists members_insufficient manual_order_incomplete : Failure
  manual_order_invalid constitution_required : Failure
  ledger : Types.Failure → Failure
