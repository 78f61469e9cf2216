-- ===== src/Commitment/Lifecycle.antt =====
-- Every operation on a commitment follows the state machine of the database and keeps the money
-- in escrow in step with the state (services/commitment.service.ts).
use mduara_api.Prelude.{ℕ, ◌≡◌, ◌⊎◌, refl, true, Option, none, some, arith, inl, inr}
use mduara_api.Prelude.Int.{ℤ}
use mduara_api.Prelude.Text.{Text, codes}
use mduara_api.Prelude.Outcome.{Outcome, ok, err, Outcome-cases}
use mduara_api.Ledger.Types.{Ledger}
use mduara_api.Commitment.Types.{
  State, applied, held, refund_requested, refunded, Deposit, Custody, Status, Failure,
}
use mduara_api.Commitment.Trigger.{allows}
use mduara_api.Commitment.Escrow.{IsBacked, insert-escrow}
use mduara_api.Commitment.Requests.{Request, serve}
use mduara_api.Commitment.Service.{
  Confirmation, Evidence, confirm_hold_from_provider, mark_at_risk, mark_default_triggered,
  mark_eligible_for_refund, request_refund, confirm_refund_from_provider, forfeit_from_rule,
  take_hold, hold_from, insert_commitment_journal, commitment_ledger_reference, hold, refund,
  forfeit, pay_refund, refund_from, assert_provider_evidence, positive_amount,
}

-- The row is the same, or the trigger lets it change so; and the ledger backs it.
abbrev pub IsKept : Deposit → Ledger → Option Deposit → Type 0
IsKept d l none = ⊥
IsKept d l (some d') = IsBacked d' l × ((d' ≡ d) ⊎ (allows d.state d' ≡ true))

abbrev pub Keeps : Deposit → Outcome Failure (Status × Custody) → Type 0
Keeps d (ok (st, s)) = IsKept d s.ledger s.deposit
Keeps d (err e) = Unit

module _ (now : ℕ) (s : Custody) (d : Deposit) (f : s.deposit ≡ some d)
    (v : IsBacked d s.ledger) where
  mark_at_risk-Keeps : (e : Evidence) → Keeps d (mark_at_risk e now s)
  unfolding mark_at_risk
  mark_at_risk-Keeps e = ground (arith, f, v)

  mark_default_triggered-Keeps : (e : Evidence) → Keeps d (mark_default_triggered e now s)
  unfolding mark_default_triggered
  mark_default_triggered-Keeps e = ground (arith, f, v)

  mark_eligible_for_refund-Keeps : (e : Evidence) → Keeps d (mark_eligible_for_refund e now s)
  unfolding mark_eligible_for_refund
  mark_eligible_for_refund-Keeps e = ground (arith, f, v)

  request_refund-Keeps : (user_id : ℕ) (uuid : Text) → Keeps d (request_refund user_id uuid now s)
  unfolding request_refund
  request_refund-Keeps user_id uuid = ground (arith, f, v)

  take_hold-Keeps : (c : Confirmation) (n : ℕ) → d.state ≡ applied → Keeps d (take_hold c n now d s)
  unfolding take_hold
  take_hold-Keeps c n a =
      elim (Outcome-cases (
        insert_commitment_journal hold
          (commitment_ledger_reference hold c.provider c.provider_reference) d n s.ledger)) [
            | inl (e, x) ↦ ground (arith, x)
            | inr ((i, l), x) ↦ ground (
              arith,
              x,
              a,
              v,
              insert-escrow hold (commitment_ledger_reference hold c.provider c.provider_reference)
                  d n s.ledger x,
            )
          ]

  hold_from-Keeps :
      (c : Confirmation) (n : ℕ) (st : State) → d.state ≡ st → Keeps d (hold_from st c n now d s)
  unfolding hold_from
  hold_from-Keeps c n applied e = take_hold-Keeps c n e
  hold_from-Keeps c n held e = ground (arith, f, v)
  hold_from-Keeps c n _ e = tt

  confirm_hold_from_provider-Keeps :
      (c : Confirmation) → Keeps d (confirm_hold_from_provider c now s)
  unfolding confirm_hold_from_provider
  confirm_hold_from_provider-Keeps c = elim (Outcome-cases (assert_provider_evidence c)) [
    | inl (e, x) ↦ rw x tt
    | inr (n, x) ↦ simp (x, f) (hold_from-Keeps c n d.state refl)
  ]

  pay_refund-Keeps :
      (c : Confirmation) (n : ℕ) → d.state ≡ refund_requested → Keeps d (pay_refund c n now d s)
  unfolding pay_refund
  pay_refund-Keeps c n a =
      elim (Outcome-cases (
        insert_commitment_journal refund
          (commitment_ledger_reference refund c.provider c.provider_reference) d n s.ledger)) [
            | inl (e, x) ↦ ground (arith, x)
            | inr ((i, l), x) ↦ ground (
              arith,
              x,
              a,
              v,
              insert-escrow refund
                  (commitment_ledger_reference refund c.provider c.provider_reference) d n s.ledger
                  x,
            )
          ]

  refund_from-Keeps :
      (c : Confirmation) (n : ℕ) (st : State) → d.state ≡ st → Keeps d (refund_from st c n now d s)
  unfolding refund_from
  refund_from-Keeps c n refund_requested e = pay_refund-Keeps c n e
  refund_from-Keeps c n refunded e = ground (arith, f, v)
  refund_from-Keeps c n _ e = tt

  confirm_refund_from_provider-Keeps :
      (c : Confirmation) → Keeps d (confirm_refund_from_provider c now s)
  unfolding confirm_refund_from_provider
  confirm_refund_from_provider-Keeps c = elim (Outcome-cases (assert_provider_evidence c)) [
    | inl (e, x) ↦ rw x tt
    | inr (n, x) ↦ simp (x, f) (refund_from-Keeps c n d.state refl)
  ]

  forfeit_from_rule-Keeps : (e : Evidence) (amount : ℤ) → Keeps d (forfeit_from_rule e amount now s)
  unfolding forfeit_from_rule
  forfeit_from_rule-Keeps e amount = elim (Outcome-cases (positive_amount amount)) [
    | inl (x, a) ↦ ground (arith, a)
    | inr (n, a) ↦
        elim (Outcome-cases (
          insert_commitment_journal forfeit
            (commitment_ledger_reference forfeit (codes "rules_engine") e.reference) d n
            s.ledger)) [
              | inl (b, x) ↦ ground (arith, a, f, v, x)
              | inr ((i, l), x) ↦ ground (
                arith,
                a,
                x,
                f,
                v,
                insert-escrow forfeit
                    (commitment_ledger_reference forfeit (codes "rules_engine") e.reference) d n
                    s.ledger x,
              )
            ]
  ]

  -- Whatever is asked of a deposit that the ledger backs, the request is refused, or the row stays
  -- as it is or changes in a way that the database's trigger lets through, and the ledger backs it
  -- still: the whole amount is in escrow from the hold until the refund or the forfeiture.
  pub serve-Keeps : (r : Request) → Keeps d (serve r now s)
  unfolding serve
  serve-Keeps (Request.hold c) = confirm_hold_from_provider-Keeps c
  serve-Keeps (Request.refund c) = confirm_refund_from_provider-Keeps c
  serve-Keeps (Request.risk e) = mark_at_risk-Keeps e
  serve-Keeps (Request.default e) = mark_default_triggered-Keeps e
  serve-Keeps (Request.eligible e) = mark_eligible_for_refund-Keeps e
  serve-Keeps (Request.ask_refund user_id uuid) = request_refund-Keeps user_id uuid
  serve-Keeps (Request.forfeit e amount) = forfeit_from_rule-Keeps e amount
