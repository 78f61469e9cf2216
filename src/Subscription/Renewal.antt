-- ===== src/Subscription/Renewal.antt =====
-- What a confirmed callback of a subscription does (services/subscription.service.ts).
use mduara_api.Prelude.{
  ℕ, zero, suc, ◌≡◌, refl, sym, ap, ◌∙◌, false, none, some, ◌==◌, inl, inr, Bool-cases,
  Option-cases, arith,
}
use mduara_api.Prelude.Int.{ℤ, pos, negsuc}
use mduara_api.Prelude.Text.{Text, trim, is_empty, codes}
use mduara_api.Prelude.Outcome.{
  Outcome, ok, err, refuse, require, guard, >>=-eq-ok, ok-pair, refuse-false, guard-true,
  require-some,
}
use mduara_api.Mpesa.{trim_or_empty}
use mduara_api.Payment.Types.{StkCallback}
use mduara_api.Payment.Values.{metadata, value_text, or_zero, big_int}
use mduara_api.Payment.Service.{is_zero}
use mduara_api.Subscription.Types.{
  Plan, Subscription, FeePayment, Tables, Failure, metadata_invalid, amount_mismatch,
  receipt_conflict, subscription_not_found, callback_invalid, checkout_unknown, unreadable_number,
}
use mduara_api.Subscription.Access.{
  Entitlements, find_plan, require_plan, resolve_subscription_entitlements,
}
use mduara_api.Subscription.Billing.{
  CallbackReport, read_as, positive, is_taken, is_paid, find_subscription, find_checkout,
  settle_fee, confirm, apply_callback, process_stk_callback,
}

-- A payment that was confirmed.
pub record HasConfirmed (p : FeePayment) (callback : StkCallback) (now : ℕ) (s : Tables)
    (s' : Tables) : Type 0 where
  pub plan : Plan
  pub row : Subscription
  pub amount : ℕ
  pub receipt : Text
  pub named : receipt ≡ trim (value_text (metadata (codes "MpesaReceiptNumber") callback.items))
  pub has_receipt : is_empty receipt ≡ false
  pub collected : big_int (or_zero (metadata (codes "Amount") callback.items)) ≡ ok (pos amount)
  pub agreed : amount ≡ p.amount
  pub planned : find_plan p.plan_code s ≡ some plan
  pub located : find_subscription p.subscription_id s ≡ some row
  pub stored : s' ≡ settle_fee plan p row amount receipt now s

read_as-ok :
    {E A : Type 0} (failure : Failure) (o : Outcome E A) {a : A}
    → read_as failure o ≡ ok a
    → o ≡ ok a
read_as-ok failure (err e) h = cc
read_as-ok failure (ok b) h = cc

positive-ok : (value : ℤ) {n : ℕ} → positive value ≡ ok n → value ≡ pos n
positive-ok (pos zero) h = cc
positive-ok (pos (suc n)) h = cc
positive-ok (negsuc n) h = cc

require_plan-find :
    (code : Text) (s : Tables) {plan : Plan}
    → require_plan code false s ≡ ok plan
    → find_plan code s ≡ some plan
require_plan-find code s h = elim (Option-cases (find_plan code s)) [
  | inl nothing ↦ absurd (ground (arith, nothing, h))
  | inr (plan, e) ↦ ground (arith, e, h)
]

confirm-HasConfirmed :
    (p : FeePayment) (callback : StkCallback) (now : ℕ) (s : Tables) {report : CallbackReport}
    {s' : Tables}
    → confirm p callback now s ≡ ok (report, s')
    → HasConfirmed p callback now s s'
unfolding confirm
confirm-HasConfirmed p callback now s h =
    let receipt = trim (value_text (metadata (codes "MpesaReceiptNumber") callback.items)) in
    let (value, read, h1) =
      >>=-eq-ok
        (read_as unreadable_number (big_int (or_zero (metadata (codes "Amount") callback.items)))) _
        h in
    let (u2, given, h2) = >>=-eq-ok (refuse (is_empty receipt) metadata_invalid) _ h1 in
    let (amount, above, h3) = >>=-eq-ok (positive value) _ h2 in
    let (u4, agreed, h4) = >>=-eq-ok (guard (amount == p.amount) amount_mismatch) _ h3 in
    let (plan, planned, h5) = >>=-eq-ok (require_plan p.plan_code false s) _ h4 in
    let (u6, new, h6) = >>=-eq-ok (refuse (is_taken receipt p.id s) receipt_conflict) _ h5 in
    let (row, located, h7) =
      >>=-eq-ok (require (find_subscription p.subscription_id s) subscription_not_found) _ h6 in
    let (access, resolved, h8) =
      >>=-eq-ok
        (resolve_subscription_entitlements p.chama_id now
          (settle_fee plan p row amount receipt now s))
        _ h7 in
    let (same_report, same_state) = ok-pair h8 in
    record {
      plan = plan;
      row = row;
      amount = amount;
      receipt = receipt;
      named = refl;
      has_receipt = refuse-false (is_empty receipt) metadata_invalid given;
      collected =
          read_as-ok unreadable_number
            (big_int (or_zero (metadata (codes "Amount") callback.items))) read
          ∙ ap ok (positive-ok value above);
      planned = require_plan-find p.plan_code s planned;
      agreed = ground (arith, guard-true (amount == p.amount) amount_mismatch agreed);
      located = require-some (find_subscription p.subscription_id s) subscription_not_found located;
      stored = sym same_state;
    }

-- How a callback that returned was applied.
pub data IsApplied (p : FeePayment) (callback : StkCallback) (now : ℕ) (s : Tables)
    (report : CallbackReport) (s' : Tables) : Type 0 where
  unchanged :
      s'.ledger ≡ s.ledger → report.subscription ≡ none → IsApplied p callback now s report s'
  paid_in : HasConfirmed p callback now s s' → IsApplied p callback now s report s'

apply-IsApplied :
    (p : FeePayment) (callback : StkCallback) (code : ℤ) (now : ℕ) (s : Tables)
    {report : CallbackReport} {s' : Tables}
    → apply_callback p callback code now s ≡ ok (report, s')
    → IsApplied p callback now s report s'
unfolding apply_callback
apply-IsApplied p callback code now s h = elim (Bool-cases (is_paid p.status)) [
  | inl done ↦
      let (same_report, same_state) = ok-pair (rw done at h) in
      unchanged (sym (ap (λ (t : Tables). t.ledger) same_state))
        (sym (ap (λ (r : CallbackReport). r.subscription) same_report))
  | inr fresh ↦ elim (Bool-cases (is_zero code)) [
    | inl success ↦ paid_in (confirm-HasConfirmed p callback now s (rw (fresh, success) at h))
    | inr failure ↦
        let (same_report, same_state) = ok-pair (rw (fresh, failure) at h) in
        unchanged (sym (ap (λ (t : Tables). t.ledger) same_state))
          (sym (ap (λ (r : CallbackReport). r.subscription) same_report))
  ]
]

pub process-IsApplied :
    (callback : StkCallback) (now : ℕ) (s : Tables) {report : CallbackReport} {s' : Tables}
    → process_stk_callback callback now s ≡ ok (report, s')
    → (p : FeePayment) × (is_empty (trim_or_empty callback.checkout_request_id) ≡ false)
      × (find_checkout (trim_or_empty callback.checkout_request_id) s ≡ some p)
      × IsApplied p callback now s report s'
unfolding process_stk_callback
process-IsApplied callback now s h =
    let checkout = trim_or_empty callback.checkout_request_id in
    let (u, given, h1) = >>=-eq-ok (refuse (is_empty checkout) callback_invalid) _ h in
    let (code, coded, h2) = >>=-eq-ok (require callback.result_code callback_invalid) _ h1 in
    let (p, found, h3) = >>=-eq-ok (require (find_checkout checkout s) checkout_unknown) _ h2 in
    (
      p,
      refuse-false (is_empty checkout) callback_invalid given,
      require-some (find_checkout checkout s) checkout_unknown found,
      apply-IsApplied p callback code now s h3,
    )

pub only_paid :
    {p : FeePayment} {callback : StkCallback} {now : ℕ} {s : Tables} {report : CallbackReport}
    {s' : Tables} {access : Entitlements}
    → IsApplied p callback now s report s'
    → report.subscription ≡ some access
    → HasConfirmed p callback now s s'
only_paid (unchanged same unreported) reported = absurd (ground (arith, unreported, reported))
only_paid (paid_in c) reported = c
