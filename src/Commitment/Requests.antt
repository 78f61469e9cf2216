-- ===== src/Commitment/Requests.antt =====
-- The operations of `CommitmentService` that write, as requests (services/commitment.service.ts).
use mduara_api.Prelude.{ℕ, List, [], ◌∷◌}
use mduara_api.Prelude.Int.{ℤ}
use mduara_api.Prelude.Text.{Text}
use mduara_api.Prelude.Outcome.{Outcome, ok, err}
use mduara_api.Commitment.Types.{Custody, Failure, Status}
use mduara_api.Commitment.Service.{
  Confirmation, Evidence, confirm_hold_from_provider, mark_at_risk, mark_default_triggered,
  mark_eligible_for_refund, request_refund, confirm_refund_from_provider, forfeit_from_rule,
}

pub data Request : Type 0 where
  hold refund : Confirmation → Request
  risk default eligible : Evidence → Request
  ask_refund : ℕ → Text → Request
  forfeit : Evidence → ℤ → Request

unfoldable pub serve : Request → ℕ → Custody → Outcome Failure (Status × Custody)
unfolding confirm_hold_from_provider mark_at_risk mark_default_triggered mark_eligible_for_refund
    request_refund confirm_refund_from_provider forfeit_from_rule
serve (hold c) now = confirm_hold_from_provider c now
serve (refund c) now = confirm_refund_from_provider c now
serve (risk e) now = mark_at_risk e now
serve (default e) now = mark_default_triggered e now
serve (eligible e) now = mark_eligible_for_refund e now
serve (ask_refund user_id uuid) now = request_refund user_id uuid now
serve (forfeit e amount) now = forfeit_from_rule e amount now

abbrev pub custody_after : Outcome Failure (Status × Custody) → Custody → Custody
custody_after (ok (st, s')) s = s'
custody_after (err e) s = s

-- Requests with their times, one after the other; one that is refused is rolled back.
abbrev pub serve_requests : List (Request × ℕ) → Custody → Custody
serve_requests [] s = s
serve_requests ((r, now) ∷ rs) s = serve_requests rs (custody_after (serve r now s) s)
