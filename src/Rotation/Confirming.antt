-- ===== src/Rotation/Confirming.antt =====
-- What a provider's result for a turn writes (`processB2CResult`, services/mgr.service.ts).
use mduara_api.Prelude.{
  ◌≡◌, ◌⊎◌, true, false, ◌&&◌, some, arith, find, update_where, ◌==◌, if◌then◌else◌, inl, inr,
  Option-cases, Bool-cases,
}
use mduara_api.Prelude.Int.{ℤ, pos}
use mduara_api.Prelude.Text.{Text, is_empty}
use mduara_api.Prelude.Outcome.{ok, Outcome-cases}
use mduara_api.Ledger.Types.{OperationResult}
use mduara_api.Ledger.Calls.{Call, run}
use mduara_api.Mpesa.{trim_or_empty}
use mduara_api.Rotation.Types.{Tables, confirmed, failed, paid, scheduled}
use mduara_api.Rotation.Service.{
  PayoutResult, PayoutReport, Context, refers_to, find_attempt_context, fail_payout, confirm_payout,
  post_payout, payout_base, report_of, receipt_of, advance_cycle, max_position, is_zero_code,
  process_payout_result, is_confirmed_attempt, is_paid_turn, is_failed_attempt, is_scheduled_turn,
  is_unsettled, read_amount,
}

pub find_attempt_context-inv :
    (t : Text) (s : Tables) (c : Context)
    → find_attempt_context t s ≡ some c
    → (find (refers_to t) s.attempts ≡ some c.attempt)
      × (find (λ x. x.id == c.attempt.payout_id) s.turns ≡ some c.turn)
      × (find (λ x. x.id == c.turn.cycle_id) s.cycles ≡ some c.cycle)
unfolding find_attempt_context
find_attempt_context-inv t s c h = ground arith

pub find_attempt_context-found :
    (t : Text) (s : Tables) (c : Context)
    → find (refers_to t) s.attempts ≡ some c.attempt
    → find (λ x. x.id == c.attempt.payout_id) s.turns ≡ some c.turn
    → find (λ x. x.id == c.turn.cycle_id) s.cycles ≡ some c.cycle
    → find_attempt_context t s ≡ some c
unfolding find_attempt_context
find_attempt_context-found t s c e f g = ground arith

abbrev pub payout_call : Text → Context → Call
payout_call receipt c =
    Call.member_payout (payout_base receipt) c.turn.chama_id c.turn.member_id (pos c.attempt.amount)

post_payout-run :
    (receipt : Text) (c : Context) (s : Tables) {posted : OperationResult × Tables}
    → post_payout receipt c s ≡ ok posted
    → (run (payout_call receipt c) s.ledger ≡ ok (posted.0, posted.1.ledger))
      × (posted.1 ≡ record s { ledger = posted.1.ledger })
unfolding run
post_payout-run receipt c s h = elim (Outcome-cases (run (payout_call receipt c) s.ledger)) [
  | inl (e, x) ↦ ground (arith, x, h)
  | inr (a, x) ↦ (ground (arith, x, h), ground (arith, x, h))
]

-- The turn is paid already, or the payout is posted and the three rows are marked.
pub confirm_payout-inv :
    (r : PayoutResult) (c : Context) (s : Tables) {rep : PayoutReport} {s' : Tables}
    → confirm_payout r c s ≡ ok (rep, s')
    → ((is_confirmed_attempt c.attempt.status && is_paid_turn c.turn.status) ≡ true)
        × (s' ≡ s)
        × (rep ≡ report_of c paid true)
      ⊎ (posted : OperationResult × Tables) × (run (payout_call (receipt_of r) c) s.ledger
          ≡ ok (posted.0, posted.1.ledger))
        × (c.turn.rotation_position ≡ c.cycle.current_position)
        × (rep ≡ report_of c paid posted.0.replayed)
        × (s'.ledger ≡ posted.1.ledger)
        × (s'.attempts
            ≡ update_where
                (λ a. a.id == c.attempt.id)
                (λ a. record a { status = confirmed; receipt = some (receipt_of r) })
                s.attempts)
        × (s'.turns
            ≡ update_where
                (λ t. t.id == c.turn.id)
                (λ t. record t {
                  status = paid;
                  receipt_number = some (receipt_of r);
                  ledger_transaction_id = some posted.0.ledger_transaction_id;
                })
                s.turns)
        × (s'.cycles ≡ (advance_cycle c.cycle (max_position c.cycle.id s.turns) s).cycles)
unfolding confirm_payout
confirm_payout-inv r c s h =
    elim (Bool-cases (is_confirmed_attempt c.attempt.status && is_paid_turn c.turn.status)) [
      | inl e ↦ inl (e, ground (arith, e, h), ground (arith, e, h))
      | inr e ↦ elim (Outcome-cases (post_payout (receipt_of r) c s)) [
        | inl (x, p) ↦ elim (Outcome-cases (read_amount r.amount_parameter)) [
          | inl (y, q) ↦ ground (arith, e, q, h)
          | inr (amount, q) ↦ ground (arith, e, p, q, h)
        ]
        | inr (posted, p) ↦
            let (call, same) = post_payout-run (receipt_of r) c s p in
            elim (Outcome-cases (read_amount r.amount_parameter)) [
              | inl (y, q) ↦ ground (arith, e, q, h)
              | inr (amount, q) ↦ inr (
                posted,
                call,
                ground (arith, e, p, q, h),
                ground (arith, e, p, q, h),
                ground (arith, e, p, q, h),
                ground (arith, e, p, q, h, same),
                ground (arith, e, p, q, h, same),
                ground (arith, e, p, q, h, same),
              )
            ]
      ]
    ]

pub fail_payout-inv :
    (c : Context) (s : Tables) {rep : PayoutReport} {s' : Tables}
    → fail_payout c s ≡ ok (rep, s')
    → ((is_failed_attempt c.attempt.status && is_scheduled_turn c.turn.status) ≡ true)
        × (s' ≡ s)
        × (rep ≡ report_of c scheduled true)
      ⊎ (s'.ledger ≡ s.ledger)
        × (s'.cycles ≡ s.cycles)
        × (s'.attempts
            ≡ update_where
                (λ a. a.id == c.attempt.id && true)
                (λ a. record a { status = failed })
                s.attempts)
        × (s'.turns
            ≡ update_where
                (λ t. t.id == c.turn.id && is_unsettled t.status)
                (λ t. record t { status = scheduled })
                s.turns)
        × (rep ≡ report_of c scheduled false)
unfolding fail_payout
fail_payout-inv c s h =
    elim (Bool-cases (is_failed_attempt c.attempt.status && is_scheduled_turn c.turn.status)) [
      | inl e ↦ inl (e, ground (arith, e, h), ground (arith, e, h))
      | inr e ↦ inr (
        ground (arith, e, h),
        ground (arith, e, h),
        ground (arith, e, h),
        ground (arith, e, h),
        ground (arith, e, h),
      )
    ]

pub process_payout_result-inv :
    (r : PayoutResult) (s : Tables) {rep : PayoutReport} {s' : Tables}
    → process_payout_result r s ≡ ok (rep, s')
    → (z : ℤ) × (c : Context) × (r.result_code ≡ some z)
      × (is_empty (trim_or_empty r.conversation_id) ≡ false)
      × (find_attempt_context (trim_or_empty r.conversation_id) s ≡ some c)
      × ((if is_zero_code z then confirm_payout r c s else fail_payout c s) ≡ ok (rep, s'))
unfolding process_payout_result
process_payout_result-inv r s h = elim (Option-cases r.result_code) [
  | inl e ↦ ground (arith, e, h)
  | inr (z, e) ↦ elim (Option-cases (find_attempt_context (trim_or_empty r.conversation_id) s)) [
    | inl f ↦ ground (arith, e, f, h)
    | inr (c, f) ↦ (z, c, e, ground (arith, e, f, h), f, ground (arith, e, f, h))
  ]
]

pub process_payout_result-from :
    (r : PayoutResult) (s : Tables) (z : ℤ) (c : Context)
    → r.result_code ≡ some z
    → is_empty (trim_or_empty r.conversation_id) ≡ false
    → find_attempt_context (trim_or_empty r.conversation_id) s ≡ some c
    → process_payout_result r s ≡ (if is_zero_code z then confirm_payout r c s else fail_payout c s)
unfolding process_payout_result
process_payout_result-from r s z c e n f = ground (arith, e, n, f)
