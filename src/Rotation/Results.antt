-- ===== src/Rotation/Results.antt =====
-- The provider's results for a turn: paid once, in the order of the cycle, and posted to the ledger
-- (`processB2CResult`, services/mgr.service.ts).
use mduara_api.Prelude.{
  ℕ, ◌≡◌, refl, ◌∙◌, true, false, ◌&&◌, some, arith, update_where, ◌==◌, inl, inr,
  find-update_where, Bool-cases, ==_refl,
}
use mduara_api.Prelude.Int.{pos}
use mduara_api.Prelude.Text.{Text, is_empty}
use mduara_api.Prelude.Outcome.{ok}
use mduara_api.Ledger.Calls.{run-IsReconciled}
use mduara_api.Ledger.Reconciled.{IsReconciled}
use mduara_api.Mpesa.{trim_or_empty}
use mduara_api.Rotation.Types.{Cycle, Tables, confirmed, failed, paid, scheduled}
use mduara_api.Rotation.Service.{
  PayoutResult, PayoutReport, Context, refers_to, find_attempt_context, fail_payout, confirm_payout,
  report_of, receipt_of, advance_cycle, step_cycle, max_position, is_zero_code,
  process_payout_result, set_turn_status, set_attempt_status, any_attempt, is_confirmed_attempt,
  is_paid_turn, is_unsettled,
}
use mduara_api.Rotation.Confirming.{
  find_attempt_context-inv, find_attempt_context-found, payout_call, confirm_payout-inv,
  fail_payout-inv, process_payout_result-inv, process_payout_result-from,
}

-- The context once the payout is confirmed.
abbrev pub settled : PayoutResult → ℕ → ℕ → Context → Context
settled r ledger_id last c = record {
  attempt = record (c.attempt) { status = confirmed; receipt = some (receipt_of r) };
  turn = record (c.turn) {
    status = paid;
    receipt_number = some (receipt_of r);
    ledger_transaction_id = some ledger_id;
  };
  cycle = step_cycle last c.cycle.current_position c.cycle;
}

step_cycle-id :
    (i last position : ℕ) (c : Cycle) → ((step_cycle last position c).id == i) ≡ (c.id == i)
step_cycle-id i last position c = ground arith

find_attempt_context-settled :
    (r : PayoutResult) (ledger_id : ℕ) (c : Context) (t : Text) (s s' : Tables)
    → find_attempt_context t s ≡ some c
    → s'.attempts
      ≡ update_where
          (λ a. a.id == c.attempt.id)
          (λ a. record a { status = confirmed; receipt = some (receipt_of r) })
          s.attempts
    → s'.turns
      ≡ update_where
          (λ x. x.id == c.turn.id)
          (λ x. record x {
            status = paid;
            receipt_number = some (receipt_of r);
            ledger_transaction_id = some ledger_id;
          })
          s.turns
    → s'.cycles ≡ (advance_cycle c.cycle (max_position c.cycle.id s.turns) s).cycles
    → find_attempt_context t s' ≡ some (settled r ledger_id (max_position c.cycle.id s.turns) c)
find_attempt_context-settled r ledger_id c t s s' h as_eq ts_eq cs_eq =
    let (e, f, g) = find_attempt_context-inv t s c h in
    let last = max_position c.cycle.id s.turns in
    find_attempt_context-found t s' (settled r ledger_id last c)
      (rw
        (
          as_eq,
          find-update_where (refers_to t) (λ a. a.id == c.attempt.id)
              (λ a. record a { status = confirmed; receipt = some (receipt_of r) }) (λ a. refl)
              s.attempts,
          e,
          ==_refl c.attempt.id,
        )
        refl)
      (rw
        (
          ts_eq,
          find-update_where (λ x. x.id == c.attempt.payout_id) (λ x. x.id == c.turn.id)
              (λ x. record x {
                status = paid;
                receipt_number = some (receipt_of r);
                ledger_transaction_id = some ledger_id;
              })
              (λ x. refl) s.turns,
          f,
          ==_refl c.turn.id,
        )
        refl)
      (rw
        (
          cs_eq,
          find-update_where (λ x. x.id == c.turn.cycle_id) (λ x. x.id == c.cycle.id)
              (step_cycle last c.cycle.current_position)
              (step_cycle-id c.turn.cycle_id last c.cycle.current_position) s.cycles,
          g,
          ==_refl c.cycle.id,
        )
        refl)

confirm_payout-replayed :
    (r : PayoutResult) (c : Context) (s : Tables)
    → (is_confirmed_attempt c.attempt.status && is_paid_turn c.turn.status) ≡ true
    → confirm_payout r c s ≡ ok (report_of c paid true, s)
unfolding confirm_payout
confirm_payout-replayed r c s h = rw h refl

module _ (r : PayoutResult) (s : Tables) {rep : PayoutReport} {s' : Tables} where
  -- A success that was processed, delivered again, is answered as a replay and changes nothing.
  pub process_payout_result-twice :
      r.result_code ≡ some (pos 0)
      → process_payout_result r s ≡ ok (rep, s')
      → (again : PayoutReport) × (process_payout_result r s' ≡ ok (again, s'))
        × (again.replayed ≡ true)
  process_payout_result-twice code_eq h =
      let (z, c, code, given, found, x) = process_payout_result-inv r s h in
      let zero : is_zero_code z ≡ true = ground (arith, code, code_eq) in
      elim (confirm_payout-inv r c s (rw zero at x)) [
        | inl (e, same, answer) ↦ (
          report_of c paid true,
          rw same (
              process_payout_result-from r s z c code given found
              ∙ rw zero (confirm_payout-replayed r c s e)),
          refl,
        )
        | inr (posted, call, place, answer, led, as_eq, ts_eq, cs_eq) ↦
            let last = max_position c.cycle.id s.turns in
            let c' = settled r posted.0.ledger_transaction_id last c in
            (
              report_of c' paid true,
              process_payout_result-from r s' z c' code given (
                    find_attempt_context-settled r posted.0.ledger_transaction_id c
                      (trim_or_empty r.conversation_id) s s' found as_eq ts_eq cs_eq)
                  ∙ rw zero (confirm_payout-replayed r c' s' refl),
              refl,
            )
      ]

  -- A result of the provider that is processed keeps a reconciled ledger reconciled and its
  -- journals balanced.
  pub process_payout_result-IsReconciled :
      IsReconciled s.ledger → process_payout_result r s ≡ ok (rep, s') → IsReconciled s'.ledger
  process_payout_result-IsReconciled v h =
      let (z, c, code, given, found, x) = process_payout_result-inv r s h in
      elim (Bool-cases (is_zero_code z)) [
        | inl zero ↦ elim (confirm_payout-inv r c s (rw zero at x)) [
          | inl (e, same, answer) ↦ rw same v
          | inr (posted, call, place, answer, led, as_eq, ts_eq, cs_eq) ↦
              rw led (run-IsReconciled (payout_call (receipt_of r) c) s.ledger v call)
        ]
        | inr other ↦ elim (fail_payout-inv c s (rw other at x)) [
          | inl (e, same, answer) ↦ rw same v
          | inr (led, cs_eq, as_eq, ts_eq, answer) ↦ rw led v
        ]
      ]

abbrev failed_tables : Context → Tables → Tables
failed_tables c s =
    set_turn_status c.turn.id is_unsettled scheduled
      (set_attempt_status c.attempt.id any_attempt failed s)

fail_payout-paid :
    (c : Context) (s : Tables)
    → c.turn.status ≡ paid
    → fail_payout c s ≡ ok (report_of c scheduled false, failed_tables c s)
unfolding fail_payout
fail_payout-paid c s h = ground (arith, h)

-- A failure, of code 1, that comes for a confirmed attempt of a turn that is paid is not
-- refused: the turn stays paid, but the attempt is marked as failed, and the answer says that
-- the turn is scheduled.
pub failure_after_payout :
    (r : PayoutResult) (s : Tables) (c : Context)
    → r.result_code ≡ some (pos 1)
    → is_empty (trim_or_empty r.conversation_id) ≡ false
    → find_attempt_context (trim_or_empty r.conversation_id) s ≡ some c
    → is_confirmed_attempt c.attempt.status ≡ true
    → c.turn.status ≡ paid
    → (rep : PayoutReport) × (s' : Tables) × (process_payout_result r s ≡ ok (rep, s'))
      × (rep.status ≡ scheduled)
      × (rep.replayed ≡ false)
      × (s'.ledger ≡ s.ledger)
      × (find_attempt_context (trim_or_empty r.conversation_id) s'
          ≡ some (record c { attempt = record (c.attempt) { status = failed } }))
failure_after_payout r s c code given found conf paid_eq =
    let (e, f, g) = find_attempt_context-inv (trim_or_empty r.conversation_id) s c found in
    let s' = failed_tables c s in
    (
      report_of c scheduled false,
      s',
      process_payout_result-from r s (pos 1) c code given found ∙ fail_payout-paid c s paid_eq,
      refl,
      refl,
      refl,
      find_attempt_context-found (trim_or_empty r.conversation_id) s'
          (record c { attempt = record (c.attempt) { status = failed } })
          (rw
            (
              find-update_where (refers_to (trim_or_empty r.conversation_id))
                  (λ a. a.id == c.attempt.id && true) (λ a. record a { status = failed })
                  (λ a. refl) s.attempts,
              e,
              ==_refl c.attempt.id,
            )
            refl)
          (rw
            (
              find-update_where (λ x. x.id == c.attempt.payout_id)
                  (λ x. x.id == c.turn.id && is_unsettled x.status)
                  (λ x. record x { status = scheduled }) (λ x. refl) s.turns,
              f,
              ==_refl c.turn.id,
              paid_eq,
            )
            refl)
          g,
    )
