-- ===== src/Commitment/Trigger.antt =====
-- `enforce_commitment_deposit_transition` (migrations/001_initial_schema.sql), on an UPDATE.
use mduara_api.Prelude.{◌+◌, Bool, true, false, ◌&&◌, Option, none, some, ltb, ◌==◌}
use mduara_api.Commitment.Types.{
  State, applied, held, at_risk, default_triggered, forfeited, partial_forfeit, eligible_for_refund,
  refund_requested, refunded, Deposit,
}

abbrev pub is_set {ℓ} : {A : Type ℓ} → Option A → Bool
is_set none = false
is_set (some a) = true

-- The transitions that the trigger lists.
abbrev pub is_edge : State → State → Bool
is_edge applied held = true
is_edge held at_risk = true
is_edge held eligible_for_refund = true
is_edge at_risk held = true
is_edge at_risk default_triggered = true
is_edge at_risk eligible_for_refund = true
is_edge default_triggered forfeited = true
is_edge eligible_for_refund refund_requested = true
is_edge refund_requested refunded = true
is_edge _ _ = false

-- What the columns of a row in a state have to hold.
abbrev pub has_evidence : State → Deposit → Bool
has_evidence applied d = true
has_evidence held d = true
has_evidence at_risk d = is_set d.at_risk_at
has_evidence default_triggered d = is_set d.default_triggered_at
has_evidence eligible_for_refund d = is_set d.eligible_for_refund_at
has_evidence refund_requested d = is_set d.refund_requested_at
has_evidence refunded d =
    is_set d.terminal_ledger_transaction_id
    && is_set d.terminal_provider
    && is_set d.terminal_provider_reference
    && is_set d.refunded_at
    && ltb 0 d.refunded_amount
    && d.refunded_amount + d.forfeited_amount == d.amount
has_evidence forfeited d =
    is_set d.terminal_ledger_transaction_id
    && is_set d.terminal_provider
    && is_set d.terminal_provider_reference
    && is_set d.forfeited_at
    && d.forfeited_amount == d.amount
has_evidence partial_forfeit d = true

abbrev pub has_hold : State → Deposit → Bool
has_hold applied d = true
has_hold _ d =
    is_set d.hold_ledger_transaction_id
    && is_set d.provider
    && is_set d.provider_reference
    && is_set d.held_at

-- The trigger lets a row whose state changes from `old` become `d`.
abbrev pub allows : State → Deposit → Bool
allows old d = is_edge old d.state && has_hold d.state d && has_evidence d.state d
