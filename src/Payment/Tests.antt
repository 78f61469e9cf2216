-- ===== src/Payment/Tests.antt =====
-- Runs of payments (services/payment.service.ts), and the theorems about them at these runs.
use mduara_api.Prelude.{
  ℕ, ◌≤◌, ◌≡◌, refl, true, false, ◌==◌, if◌then◌else◌, none, some, [], ◌∷◌, arith,
}
use mduara_api.Prelude.Int.{pos}
use mduara_api.Prelude.Text.{Text, codes, trim}
use mduara_api.Prelude.Outcome.{Outcome, ok, err}
use mduara_api.Ledger.Reconciled.{IsReconciled}
use mduara_api.Trust.Types.{
  ContributionStatus, partially_paid, paid, Contribution, MemberStatus, Inputs,
}
use mduara_api.Trust.Score.{refresh_membership_score}
use mduara_api.Payment.Types.{
  ProviderLog, Tables, text, number, StkCallback, Failure, exceeds_remaining,
}
use mduara_api.Payment.Values.{normalize_kenyan_phone, big_int}
use mduara_api.Payment.Service.{
  CallbackReport, begin_payment, process_stk_callback, apply_callback, confirm, complete,
  confirmed_amount, find_contribution, find_log, initiate_stk_push, after_gateway, accepted,
}
use mduara_api.Payment.Confirming.{
  process_stk_callback-IsReconciled, process_stk_callback-never_overpays,
  process_stk_callback-twice,
}

local_number : normalize_kenyan_phone (codes "0712 345 678") ≡ ok (codes "254712345678")
unfolding normalize_kenyan_phone
local_number = refl

hexadecimal : big_int (codes " 0x1F ") ≡ ok (pos 31)
unfolding big_int trim
hexadecimal = refl

abbrev no_key : ℕ → Inputs → Text
no_key member_id i = []

abbrev start : Tables
start = record {
  records = record {
    contributions =
        (record {
          id = 41;
          chama_id = 1;
          member_id = 21;
          expected_amount = 300;
          due_date = 6;
          status = ContributionStatus.pending;
          missed_at = none;
        })
        ∷ [];
    payments = [];
    members = (record { id = 21; chama_id = 1; user_id = 11; status = MemberStatus.active }) ∷ [];
    formulas = [];
    snapshots = [];
  };
  logs = [];
  ledger = record {
    chamas = (record { id = 1; pooled_amount = 0 }) ∷ [];
    transactions = [];
    next_id = 500;
  };
  audits = [];
  next_id = 100;
}

too_much : begin_payment 11 41 (pos 301) (codes "0712345678") start ≡ err exceeds_remaining
unfolding begin_payment normalize_kenyan_phone
too_much = refl

abbrev asked : Tables
unfolding initiate_stk_push after_gateway begin_payment normalize_kenyan_phone
asked =
    (initiate_stk_push no_key 11 41 (pos 100) (codes "0712345678") (accepted (codes "ws_1")) 5 5
      start).1

abbrev callback : StkCallback
callback = record {
  checkout_request_id = some (codes " ws_1 ");
  result_code = some (pos 0);
  items =
      (codes "Amount", number (pos 100)) ∷ (codes "MpesaReceiptNumber", text (codes "QX1")) ∷ [];
}

abbrev sample_report : CallbackReport
sample_report = record { log_id = 100; contribution_status = some partially_paid; replayed = false }

abbrev state_of : Outcome Failure (CallbackReport × Tables) → Tables
state_of (err failure) = start
state_of (ok (r, s)) = s

abbrev confirmed_state : Tables
unfolding asked after_gateway process_stk_callback apply_callback confirm complete big_int trim
    refresh_membership_score
confirmed_state = state_of (process_stk_callback no_key callback 6 6 asked)

start-IsReconciled : IsReconciled asked.ledger
unfolding asked after_gateway
start-IsReconciled = record { treasury = λ i {p} h. ground (arith, h); balanced = tt }

process_stk_callback-IsReconciled_example : IsReconciled confirmed_state.ledger
unfolding confirmed_state asked after_gateway process_stk_callback apply_callback confirm complete
    big_int trim refresh_membership_score
process_stk_callback-IsReconciled_example =
    process_stk_callback-IsReconciled no_key callback 6 6 asked sample_report confirmed_state
      start-IsReconciled refl

process_stk_callback-never_overpays_example :
    (log : ProviderLog) × (contribution_id : ℕ) × (contribution : Contribution) × (find_log
        (codes "ws_1")
        asked
      ≡ some log)
    × (log.contribution_id ≡ some contribution_id)
    × (find_contribution contribution_id asked.records ≡ some contribution)
    × (find_contribution contribution_id confirmed_state.records
        ≡ some (record contribution { status = partially_paid }))
    × (confirmed_amount contribution_id confirmed_state.records ≤ contribution.expected_amount)
    × (partially_paid ≡ (
        if confirmed_amount contribution_id confirmed_state.records == contribution.expected_amount
        then paid
        else partially_paid))
unfolding confirmed_state asked after_gateway process_stk_callback apply_callback confirm complete
    big_int trim refresh_membership_score
process_stk_callback-never_overpays_example =
    process_stk_callback-never_overpays no_key callback 6 6 asked sample_report confirmed_state
      partially_paid refl refl

process_stk_callback-twice_example :
    (log : ProviderLog) × (find_log (codes "ws_1") asked ≡ some log)
    × (process_stk_callback no_key callback 9 9 confirmed_state
        ≡ ok (
          (record { log_id = log.id; contribution_status = none; replayed = true }),
          confirmed_state,
        ))
unfolding confirmed_state asked after_gateway process_stk_callback apply_callback confirm complete
    big_int trim refresh_membership_score
process_stk_callback-twice_example =
    process_stk_callback-twice no_key callback callback 6 6 9 9 asked sample_report confirmed_state
      partially_paid (pos 0) refl refl refl refl
