-- ===== src/Rotation/Tests.antt =====
-- Runs of the merry-go-round (services/mgr.service.ts), and the theorems about it at these runs.
use mduara_api.Prelude.{
  ℕ, ◌+◌, ◌≤◌, ◌≡◌, refl, true, false, ◌&&◌, ◌==◌, none, some, List, [], ◌∷◌, find, update_where,
  arith,
}
use mduara_api.Prelude.Int.{ℤ, pos}
use mduara_api.Prelude.Text.{codes, trim}
use mduara_api.Prelude.Outcome.{Outcome, ok, err}
use mduara_api.Roles.{chairperson}
use mduara_api.Mpesa.{trim_or_empty, parse_whole_amount}
use mduara_api.Ledger.Operations.{
  record_member_payout, find_existing_operation, post, same_entries, deposit_operation, journal_of,
}
use mduara_api.Ledger.Reconciled.{IsReconciled}
use mduara_api.Rotation.Types.{
  Cycle, Turn, Attempt, Swap, SwapStatus, Member, Tables, Failure, TurnStatus, AttemptStatus,
  active, scheduled, paid, disbursement_pending, dispatched, confirmed, failed, accepted,
}
use mduara_api.Rotation.Service.{
  PayoutResult, PayoutReport, Context, accept_swap, request_payout, new_attempt,
  find_attempt_context, process_payout_result,
}
use mduara_api.Rotation.Swapping.{exchanged, accept_swap-exchanges}
use mduara_api.Rotation.Requesting.{IsRequested, request_payout-checks}
use mduara_api.Rotation.Results.{
  process_payout_result-twice, process_payout_result-IsReconciled, failure_after_payout,
}

abbrev turn : ℕ → ℕ → ℕ → TurnStatus → Turn
turn id member_id position status = record {
  id = id;
  cycle_id = 1;
  chama_id = 1;
  member_id = member_id;
  rotation_position = position;
  payout_amount = 300;
  scheduled_date = 7 + position;
  status = status;
  receipt_number = none;
  ledger_transaction_id = none;
}

abbrev cycle_at : ℕ → Cycle
cycle_at position = record { id = 1; chama_id = 1; current_position = position; status = active }

abbrev attempt : AttemptStatus → Attempt
attempt status = record {
  id = 90;
  payout_id = 31;
  attempt_no = 1;
  amount = 300;
  status = status;
  provider_reference = some (codes "AG_9");
  receipt = none;
}

abbrev official : Member
official = record {
  id = 21;
  chama_id = 1;
  user_id = 11;
  role = chairperson;
  is_active = true;
  phone = some (codes "254700000001");
}

abbrev tables : ℕ → TurnStatus → List Attempt → Tables
tables position status attempts = record {
  ledger = record {
    chamas = record { id = 1; pooled_amount = 1000 } ∷ [];
    transactions =
        journal_of 9 (
          deposit_operation (record { reference = codes "d"; initiated_by = none; currency = none })
            1 1000)
        ∷ [];
    next_id = 10;
  };
  cycles = cycle_at position ∷ [];
  turns = turn 31 21 1 status ∷ turn 32 22 2 scheduled ∷ turn 33 23 3 scheduled ∷ [];
  attempts = attempts;
  swaps = [];
  members = official ∷ [];
  can_write = λ chama_id. true;
  next_id = 100;
}

abbrev swap : Swap
swap = record {
  id = 70;
  cycle_id = 1;
  requester_payout_id = 31;
  target_payout_id = 33;
  requester_member_id = 21;
  target_member_id = 23;
  status = SwapStatus.pending;
}

abbrev tables_of : {A : Type 0} → Outcome Failure (A × Tables) → Tables
tables_of (ok (a, s)) = s
tables_of (err e) = tables 1 paid []

abbrev to_swap : Tables
to_swap = record (tables 1 scheduled []) { swaps = swap ∷ [] }

abbrev swapped : Tables
unfolding accept_swap
swapped = tables_of (accept_swap (cycle_at 1) swap to_swap)

accept_swap-exchanges_example :
    (first second : Turn) × (find (λ x. x.id == 31 && x.cycle_id == 1) to_swap.turns ≡ some first)
    × (find (λ x. x.id == 33 && x.cycle_id == 1) to_swap.turns ≡ some second)
    × (first.id ≡ 31)
    × (second.id ≡ 33)
    × (first.status ≡ scheduled)
    × (second.status ≡ scheduled)
    × (1 ≤ first.rotation_position)
    × (1 ≤ second.rotation_position)
    × (find (λ x. x.id == 33) swapped.turns
        ≡ some (exchanged first second (turn 33 23 3 scheduled)))
    × ((cycle_at 1).status ≡ active)
    × (accepted ≡ accepted)
    × (swapped ≡ record to_swap {
      turns = swapped.turns;
      swaps = update_where (λ w. w.id == 70) (λ w. record w { status = accepted }) to_swap.swaps;
    })
unfolding accept_swap
accept_swap-exchanges_example =
    accept_swap-exchanges (cycle_at 1) swap to_swap {st = accepted} {s' = swapped} 33
      (turn 33 23 3 scheduled) (omega arith) refl refl

abbrev requested : Tables
unfolding request_payout
requested = tables_of (request_payout 11 1 (tables 1 scheduled []))

abbrev requested_attempt : Attempt
requested_attempt = new_attempt 100 (turn 31 21 1 scheduled) []

request_payout-checks_example :
    IsRequested 11 1 (tables 1 scheduled []) requested_attempt (codes "254700000001") requested
    × ((e : Failure) × (request_payout 12 1 requested ≡ err e))
unfolding request_payout
request_payout-checks_example =
    request_payout-checks 11 1 (tables 1 scheduled []) requested_attempt (codes "254700000001")
      requested 12 refl

abbrev result : ℤ → PayoutResult
result code = record {
  conversation_id = some (codes "AG_9");
  result_code = some code;
  transaction_id = none;
  receipt_parameter = some (codes "SAF7");
  transaction_parameter = none;
  amount_parameter = some (codes "300.00");
}

abbrev sent : Tables
sent = tables 1 disbursement_pending (attempt dispatched ∷ [])

abbrev after : Tables
unfolding process_payout_result
after = tables_of (process_payout_result (result (pos 0)) sent)

abbrev answer : PayoutReport
answer = record { payout_id = 31; status = paid; replayed = false }

next_turn : after.cycles ≡ cycle_at 2 ∷ []
unfolding process_payout_result trim parse_whole_amount record_member_payout find_existing_operation
    post same_entries
next_turn = refl

process_payout_result-twice_example :
    (again : PayoutReport) × (process_payout_result (result (pos 0)) after ≡ ok (again, after))
    × (again.replayed ≡ true)
unfolding process_payout_result trim parse_whole_amount record_member_payout find_existing_operation
    post same_entries
process_payout_result-twice_example =
    process_payout_result-twice (result (pos 0)) sent {rep = answer} {s' = after} refl refl

sent-IsReconciled : IsReconciled sent.ledger
sent-IsReconciled = record { treasury = λ i h. ground arith; balanced = (refl, tt) }

process_payout_result-IsReconciled_example : IsReconciled after.ledger
unfolding process_payout_result trim parse_whole_amount record_member_payout find_existing_operation
    post same_entries
process_payout_result-IsReconciled_example =
    process_payout_result-IsReconciled (result (pos 0)) sent {rep = answer} {s' = after}
      sent-IsReconciled refl

abbrev over : Tables
over = tables 2 paid (attempt confirmed ∷ [])

abbrev over_context : Context
over_context = record { attempt = attempt confirmed; turn = turn 31 21 1 paid; cycle = cycle_at 2 }

failure_after_payout_example :
    (rep : PayoutReport) × (t : Tables) × (process_payout_result (result (pos 1)) over
      ≡ ok (rep, t))
    × (rep.status ≡ scheduled)
    × (rep.replayed ≡ false)
    × (t.ledger ≡ over.ledger)
    × (find_attempt_context (trim_or_empty (some (codes "AG_9"))) t
        ≡ some (record over_context { attempt = record (attempt confirmed) { status = failed } }))
unfolding find_attempt_context trim
failure_after_payout_example =
    failure_after_payout (result (pos 1)) over over_context refl refl refl refl refl
