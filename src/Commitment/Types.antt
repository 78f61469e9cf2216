-- ===== src/Commitment/Types.antt =====
-- A membership's latest commitment deposit, with the rows that `commitmentContextSql` joins to it
-- (services/commitment.service.ts).
use mduara_api.Prelude.{ℕ, Bool, true, false, ◌&&◌, Option}
use mduara_api.Prelude.Text.{Text}
use mduara_api.Ledger.Types
use mduara_api.Ledger.Types.{Ledger}

pub data State : Type 0 where
  applied held at_risk default_triggered forfeited partial_forfeit : State
  eligible_for_refund refund_requested refunded : State

pub data MembershipStatus : Type 0 where
  active pending suspended defaulted exited : MembershipStatus

pub data ApplicationStatus : Type 0 where
  submitted commitment_pending approved rejected withdrawn : ApplicationStatus

-- The columns of commitment_deposits that the service reads or writes.
pub record Deposit : Type 0 where
  pub id : ℕ
  pub chama_id : ℕ
  pub user_id : ℕ
  pub membership_id : ℕ
  pub amount : ℕ
  pub state : State
  pub provider : Option Text
  pub provider_reference : Option Text
  pub terminal_provider : Option Text
  pub terminal_provider_reference : Option Text
  pub last_transition_source : Text
  pub last_transition_reference : Text
  pub forfeited_amount : ℕ
  pub refunded_amount : ℕ
  pub hold_ledger_transaction_id : Option ℕ
  pub terminal_ledger_transaction_id : Option ℕ
  pub held_at : Option ℕ
  pub at_risk_at : Option ℕ
  pub default_triggered_at : Option ℕ
  pub eligible_for_refund_at : Option ℕ
  pub refund_requested_at : Option ℕ
  pub refunded_at : Option ℕ
  pub forfeited_at : Option ℕ

-- The deposit beside the statuses of its membership and its application, whether the Constitution
-- was accepted, and the ledger.
pub record Custody : Type 0 where
  pub deposit : Option Deposit
  pub membership_status : MembershipStatus
  pub application_status : ApplicationStatus
  pub constitution_accepted : Bool
  pub ledger : Ledger

pub data Failure : Type 0 where
  evidence_required amount_not_positive currency_not_kes : Failure
  commitment_not_found owner_required : Failure
  held_by_other_transaction refunded_by_other_transaction : Failure
  invalid_state : State → Failure
  commitment_not_pending constitution_not_accepted membership_state_invalid : Failure
  amount_mismatch default_unresolved partial_forfeiture_disabled : Failure
  ledger : Types.Failure → Failure

-- What `mapStatus` reports, less the copies of columns.
pub record Status : Type 0 where
  pub state : State
  pub membership_status : MembershipStatus
  pub application_status : ApplicationStatus
  pub can_start_saving : Bool
  pub replayed : Bool

abbrev pub is_held : State → Bool
is_held held = true
is_held _ = false

abbrev pub is_active : MembershipStatus → Bool
is_active active = true
is_active _ = false

abbrev pub is_pending : MembershipStatus → Bool
is_pending pending = true
is_pending _ = false

abbrev pub is_defaulted : MembershipStatus → Bool
is_defaulted defaulted = true
is_defaulted _ = false

abbrev pub is_commitment_pending : ApplicationStatus → Bool
is_commitment_pending commitment_pending = true
is_commitment_pending _ = false

abbrev pub map_status : Deposit → Custody → Bool → Status
map_status row s replayed = record {
  state = row.state;
  membership_status = s.membership_status;
  application_status = s.application_status;
  can_start_saving = is_held row.state && is_active s.membership_status;
  replayed = replayed;
}
