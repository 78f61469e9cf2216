-- ===== src/Commitment/Tests.antt =====
-- Runs of the commitment service (services/commitment.service.ts), and the theorems about it at
-- these runs.
use mduara_api.Prelude.{
  ℕ, ◌∷◌, List, [], ◌≡◌, inl, refl, true, false, Option, none, some, [], arith,
}
use mduara_api.Prelude.Int.{pos}
use mduara_api.Prelude.Text.{Text, codes, trim}
use mduara_api.Prelude.Outcome.{Outcome, ok, err}
use mduara_api.Commitment.Types.{
  applied, held, active, approved, Deposit, Custody, Status, Failure, pending, commitment_pending,
  held_by_other_transaction,
}
use mduara_api.Commitment.Escrow.{IsBacked}
use mduara_api.Commitment.Requests.{Request, serve, serve_requests}
use mduara_api.Commitment.Service.{
  Confirmation, confirm_hold_from_provider, insert_commitment_journal,
}
use mduara_api.Commitment.Lifecycle.{Keeps, serve-Keeps}
use mduara_api.Commitment.Histories.{Reaches, serve_requests-IsBacked}
use mduara_api.Commitment.Replays.{confirm_hold_twice_untrimmed}

abbrev applied_deposit : Deposit
applied_deposit = record {
  id = 1;
  chama_id = 1;
  user_id = 4;
  membership_id = 7;
  amount = 1000;
  state = applied;
  provider = none;
  provider_reference = none;
  terminal_provider = none;
  terminal_provider_reference = none;
  last_transition_source = codes "application";
  last_transition_reference = codes "a-1";
  forfeited_amount = 0;
  refunded_amount = 0;
  hold_ledger_transaction_id = none;
  terminal_ledger_transaction_id = none;
  held_at = none;
  at_risk_at = none;
  default_triggered_at = none;
  eligible_for_refund_at = none;
  refund_requested_at = none;
  refunded_at = none;
  forfeited_at = none;
}

abbrev joining : Custody
joining = record {
  deposit = some applied_deposit;
  membership_status = pending;
  application_status = commitment_pending;
  constitution_accepted = true;
  ledger = record { chamas = []; transactions = []; next_id = 1 };
}

abbrev confirmation : Text → Confirmation
confirmation provider = record {
  provider = provider;
  provider_reference = codes "QK1";
  amount = pos 1000;
  currency = none;
  occurred_at = none;
}

applied_deposit-IsBacked : IsBacked applied_deposit joining.ledger
applied_deposit-IsBacked = record {
  escrow = refl;
  refunded_exactly = refl;
  forfeited_exactly = refl;
  positive = omega arith;
  hold_recorded = refl;
  never_partial = cc;
}

serve-Keeps_example :
    Keeps applied_deposit (serve (Request.hold (confirmation (codes "mpesa"))) 20 joining)
serve-Keeps_example =
    serve-Keeps 20 joining applied_deposit refl applied_deposit-IsBacked
      (Request.hold (confirmation (codes "mpesa")))

abbrev status_of : Outcome Failure (Status × Custody) → Option Status
status_of (ok (st, s)) = some st
status_of (err e) = none

abbrev custody_of : Outcome Failure (Status × Custody) → Custody
custody_of (ok (st, s)) = s
custody_of (err e) = joining

abbrev taken : Status
taken = record {
  state = held;
  membership_status = active;
  application_status = approved;
  can_start_saving = true;
  replayed = false;
}

abbrev holding : Text → Custody
unfolding confirm_hold_from_provider trim insert_commitment_journal
holding provider = custody_of (confirm_hold_from_provider (confirmation provider) 20 joining)

-- The provider's name with a blank after it.
confirm_hold_twice_untrimmed_example :
    confirm_hold_from_provider (confirmation (codes "mpesa ")) 30 (holding (codes "mpesa "))
    ≡ err held_by_other_transaction
unfolding confirm_hold_from_provider trim insert_commitment_journal
confirm_hold_twice_untrimmed_example =
    confirm_hold_twice_untrimmed (confirmation (codes "mpesa ")) 20 30 joining applied_deposit
      {st = taken} {s' = holding (codes "mpesa ")} refl refl (inl cc) refl

-- A hold, a risk, and a refund that nobody has asked for.
abbrev some_requests : List (Request × ℕ)
some_requests =
    (Request.hold (confirmation (codes "mpesa")), 20)
    ∷ (Request.risk (record { source = codes "rules"; reference = codes "r-1" }), 30)
    ∷ (Request.refund (confirmation (codes "mpesa")), 40)
    ∷ []

serve_requests-IsBacked_example :
    (d : Deposit) × ((serve_requests some_requests joining).deposit ≡ some d)
    × IsBacked d (serve_requests some_requests joining).ledger
    × Reaches applied d
serve_requests-IsBacked_example =
    serve_requests-IsBacked some_requests joining applied_deposit refl applied_deposit-IsBacked
