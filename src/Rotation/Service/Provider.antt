-- ===== src/Rotation/Service/Provider.antt =====
-- `processB2CResult` and `processB2CTimeout` (services/mgr.service.ts).
use mduara_api.Prelude.{
  ℕ, ◌+◌, Bool, true, false, ◌&&◌, ◌||◌, Option, none, some, List, [], ◌∷◌, ◌++◌, find,
  update_where, leb, ◌==◌, if◌then◌else◌,
}
use mduara_api.Prelude.Int.{ℤ, pos, negsuc}
use mduara_api.Prelude.Text.{Text, codes, text_eq, is_empty, trim}
use mduara_api.Prelude.Outcome.{Outcome, ok, err, ◌>>=◌, ◌>>◌, guard, refuse, require}
use mduara_api.Ledger.Types
use mduara_api.Ledger.Types.{OperationResult, BaseOperation}
use mduara_api.Ledger.Operations.{record_member_payout}
use mduara_api.Mpesa.{parse_whole_amount, parameter_transaction, trim_or_empty}
use mduara_api.Rotation.Types.{
  completed, TurnStatus, scheduled, disbursement_pending, paid, disputed, AttemptStatus, dispatched,
  confirmed, failed, timed_out, Cycle, Turn, Attempt, Tables, Failure, result_invalid,
  timeout_invalid, attempt_not_found, receipt_missing, amount_invalid, amount_mismatch,
  position_conflict, ledger,
}
use mduara_api.Rotation.Service.Swaps.{max_position}
use mduara_api.Rotation.Service.Payouts.{set_turn_status, is_pending_payout}

-- The payload, with the amount as `String(value)`.
pub record PayoutResult : Type 0 where
  pub conversation_id : Option Text
  pub result_code : Option ℤ
  pub transaction_id : Option Text
  pub receipt_parameter : Option Text
  pub transaction_parameter : Option Text
  pub amount_parameter : Option Text

pub record PayoutReport : Type 0 where
  pub payout_id : ℕ
  pub status : TurnStatus
  pub replayed : Bool

pub record Context : Type 0 where
  pub attempt : Attempt
  pub turn : Turn
  pub cycle : Cycle

abbrev pub refers_to : Text → Attempt → Bool
refers_to t a = elim a.provider_reference [ none ↦ false | some r ↦ text_eq r t ]

abbrev pub with_cycle : Attempt → Turn → Option Cycle → Option Context
with_cycle a t none = none
with_cycle a t (some c) = some (record { attempt = a; turn = t; cycle = c })

abbrev pub with_turn : Attempt → Option Turn → List Cycle → Option Context
with_turn a none cycles = none
with_turn a (some t) cycles = with_cycle a t (find (λ c. c.id == t.cycle_id) cycles)

abbrev pub with_attempt : Option Attempt → Tables → Option Context
with_attempt none s = none
with_attempt (some a) s = with_turn a (find (λ t. t.id == a.payout_id) s.turns) s.cycles

-- `findAttemptContext`
unfoldable pub find_attempt_context : Text → Tables → Option Context
find_attempt_context conversation_id s =
    with_attempt (find (refers_to conversation_id) s.attempts) s

abbrev pub is_failed_attempt : AttemptStatus → Bool
is_failed_attempt failed = true
is_failed_attempt _ = false

abbrev pub is_confirmed_attempt : AttemptStatus → Bool
is_confirmed_attempt confirmed = true
is_confirmed_attempt _ = false

abbrev pub is_open_attempt : AttemptStatus → Bool
is_open_attempt AttemptStatus.pending = true
is_open_attempt dispatched = true
is_open_attempt _ = false

abbrev pub is_scheduled_turn : TurnStatus → Bool
is_scheduled_turn scheduled = true
is_scheduled_turn _ = false

abbrev pub is_paid_turn : TurnStatus → Bool
is_paid_turn paid = true
is_paid_turn _ = false

abbrev pub is_unsettled : TurnStatus → Bool
is_unsettled disbursement_pending = true
is_unsettled disputed = true
is_unsettled _ = false

abbrev pub set_attempt_status : ℕ → (AttemptStatus → Bool) → AttemptStatus → Tables → Tables
set_attempt_status id from status s = record s {
  attempts =
      update_where (λ a. a.id == id && from a.status) (λ a. record a { status = status })
        s.attempts;
}

abbrev pub any_attempt : AttemptStatus → Bool
any_attempt status = true

abbrev pub report_of : Context → TurnStatus → Bool → PayoutReport
report_of c status replayed = record { payout_id = c.turn.id; status = status; replayed = replayed }

unfoldable pub fail_payout : Context → Tables → Outcome Failure (PayoutReport × Tables)
fail_payout c s =
    if is_failed_attempt c.attempt.status && is_scheduled_turn c.turn.status
    then ok (report_of c scheduled true, s)
    else ok (
      report_of c scheduled false,
      set_turn_status c.turn.id is_unsettled scheduled
          (set_attempt_status c.attempt.id any_attempt failed s),
    )

-- `parseProviderAmount` of services/mgr.service.ts, which refuses what it cannot read.
abbrev pub read_amount : Option Text → Outcome Failure (Option ℕ)
read_amount none = ok none
read_amount (some []) = ok none
read_amount (some (c ∷ t)) = elim (parse_whole_amount (trim (c ∷ t))) [
  | none ↦ err amount_invalid
  | some n ↦ ok (some n)
]

abbrev pub agrees : Option ℕ → ℕ → Bool
agrees none amount = true
agrees (some n) amount = n == amount

abbrev pub receipt_of : PayoutResult → Text
receipt_of r =
    let own = trim_or_empty r.transaction_id in
    if is_empty own then parameter_transaction r.receipt_parameter r.transaction_parameter else own

abbrev pub payout_base : Text → BaseOperation
payout_base receipt = record {
  reference = codes "mgr-payout:" ++ receipt;
  initiated_by = none;
  currency = none;
}

abbrev pub lift_payout_ledger {ℓ} : {A : Type ℓ} → Outcome Types.Failure A → Outcome Failure A
lift_payout_ledger (ok a) = ok a
lift_payout_ledger (err e) = err (ledger e)

abbrev pub confirm_attempt : ℕ → Text → Tables → Tables
confirm_attempt id receipt s = record s {
  attempts =
      update_where (λ a. a.id == id) (λ a. record a { status = confirmed; receipt = some receipt })
        s.attempts;
}

abbrev pub pay_turn : ℕ → Text → ℕ → Tables → Tables
pay_turn id receipt ledger_id s = record s {
  turns =
      update_where (λ t. t.id == id)
        (λ t. record t {
          status = paid;
          receipt_number = some receipt;
          ledger_transaction_id = some ledger_id;
        })
        s.turns;
}

-- The cycle goes on to its next turn, or is completed after its last one. The position is the one
-- that was read with the context.
abbrev pub step_cycle : ℕ → ℕ → Cycle → Cycle
step_cycle last position c =
    if leb last position
    then record c { status = completed }
    else record c { current_position = c.current_position + 1 }

abbrev pub advance_cycle : Cycle → ℕ → Tables → Tables
advance_cycle cycle last s = record s {
  cycles = update_where (λ c. c.id == cycle.id) (step_cycle last cycle.current_position) s.cycles;
}

abbrev pub post_payout : Text → Context → Tables → Outcome Failure (OperationResult × Tables)
post_payout receipt c s = do
  posted ← lift_payout_ledger (
      record_member_payout (payout_base receipt) c.turn.chama_id c.turn.member_id
        (pos c.attempt.amount) s.ledger)
  ok (posted.0, record s { ledger = posted.1 })

unfoldable pub confirm_payout :
    PayoutResult → Context → Tables → Outcome Failure (PayoutReport × Tables)
confirm_payout r c s =
    if is_confirmed_attempt c.attempt.status && is_paid_turn c.turn.status
    then ok (report_of c paid true, s)
    else do
      refuse (is_empty (receipt_of r)) receipt_missing
      amount ← read_amount r.amount_parameter
      guard (agrees amount c.attempt.amount) amount_mismatch
      posted ← post_payout (receipt_of r) c s
      guard (c.turn.rotation_position == c.cycle.current_position) position_conflict
      ok (
        report_of c paid posted.0.replayed,
        advance_cycle c.cycle (max_position c.cycle.id posted.1.turns) (
            pay_turn c.turn.id (receipt_of r) posted.0.ledger_transaction_id
              (confirm_attempt c.attempt.id (receipt_of r) posted.1)),
      )

abbrev pub is_zero_code : ℤ → Bool
is_zero_code (pos n) = n == 0
is_zero_code (negsuc n) = false

unfoldable pub process_payout_result :
    PayoutResult → Tables → Outcome Failure (PayoutReport × Tables)
unfolding find_attempt_context fail_payout confirm_payout
process_payout_result r s = do
  refuse (is_empty (trim_or_empty r.conversation_id)) result_invalid
  code ← require r.result_code result_invalid
  context ← require (find_attempt_context (trim_or_empty r.conversation_id) s) attempt_not_found
  if is_zero_code code then confirm_payout r context s else fail_payout context s

unfoldable pub process_payout_timeout :
    PayoutResult → Tables → Outcome Failure (PayoutReport × Tables)
unfolding find_attempt_context
process_payout_timeout r s = do
  refuse (is_empty (trim_or_empty r.conversation_id)) timeout_invalid
  c ← require (find_attempt_context (trim_or_empty r.conversation_id) s) attempt_not_found
  if is_confirmed_attempt c.attempt.status || is_paid_turn c.turn.status
      then ok (report_of c paid true, s)
      else ok (
        report_of c disputed false,
        set_turn_status c.turn.id is_pending_payout disputed
            (set_attempt_status c.attempt.id is_open_attempt timed_out s),
      )
