-- ===== src/Subscription/Settling.antt =====
-- What a confirmed callback leaves in the ledger, the subscription and the payment
-- (services/subscription.service.ts).
use mduara_api.Prelude.{ℕ, ◌+◌, false, ◌≤◌, ◌≡◌, refl, sym, ap, ◌∙◌, subst, true, none, some, arith}
use mduara_api.Prelude.Int.{ℤ, pos}
use mduara_api.Prelude.Text.{Text, trim, is_empty, codes}
use mduara_api.Prelude.Outcome.{ok}
use mduara_api.Mpesa.{trim_or_empty}
use mduara_api.Payment.Values.{metadata, value_text, or_zero, big_int}
use mduara_api.Payment.Types.{StkCallback}
use mduara_api.Subscription.Calendar.{add_billing_period}
use mduara_api.Subscription.Types.{active, paid, Plan, Subscription, FeePayment, Tables}
use mduara_api.Subscription.Access.{Entitlements, find_plan}
use mduara_api.Subscription.Billing.{
  CallbackReport, find_subscription, find_checkout, period_start, post_fee, renewed, apply_callback,
  process_stk_callback,
}
use mduara_api.Subscription.Renewal.{process-IsApplied, only_paid}
use mduara_api.Subscription.Charging.{
  at_least, now-period_start, end-period_start, find_subscription-renewed, find_checkout-paid,
  IsCharged, post_fee-IsCharged,
}

-- If a callback reports what the chama is entitled to, then the payment of the checkout is charged as
-- it was asked for: the callback's amount is that of the payment, the ledger has a journal of the
-- receipt (one that was there, or a new one of this amount), and the payment is marked as paid with
-- the receipt. The subscription that it names is active, on the plan and at the amount of the payment.
-- Its new period starts neither before now nor before the end of the one that it had, and ends one
-- billing period of the payment later, with a week of grace.
pub process_stk_callback-renews :
    (callback : StkCallback) (now : ℕ) (s : Tables) (report : CallbackReport) (s' : Tables)
    (access : Entitlements)
    → process_stk_callback callback now s ≡ ok (report, s')
    → report.subscription ≡ some access
    → (p : FeePayment) × (plan : Plan) × (before : Subscription) × (after : Subscription)
      × (start : ℕ) × (receipt : Text) × (find_checkout
            (trim_or_empty callback.checkout_request_id)
            s
          ≡ some p)
      × (receipt ≡ trim (value_text (metadata (codes "MpesaReceiptNumber") callback.items)))
      × (is_empty receipt ≡ false)
      × (big_int (or_zero (metadata (codes "Amount") callback.items)) ≡ ok (pos p.amount))
      × IsCharged p receipt s.ledger s'.ledger
      × (find_checkout (trim_or_empty callback.checkout_request_id) s'
          ≡ some (record p {
            status = paid;
            result_code = some (pos 0);
            receipt_number = some receipt;
          }))
      × (find_plan p.plan_code s ≡ some plan)
      × (find_subscription p.subscription_id s ≡ some before)
      × (find_subscription p.subscription_id s' ≡ some after)
      × (after.plan_code ≡ plan.code)
      × (after.amount ≡ p.amount)
      × (after.status ≡ active)
      × (after.current_period_start ≡ some start)
      × (now ≤ start)
      × (at_least before.current_period_end start ≡ true)
      × (after.current_period_end ≡ some (add_billing_period start p.billing_frequency))
      × (after.grace_ends_at ≡ some (add_billing_period start p.billing_frequency + 604_800_000))
process_stk_callback-renews callback now s report s' access h reported =
    let (p, given, found, applied) = process-IsApplied callback now s h in
    let c = only_paid applied reported in
    let checkout = trim_or_empty callback.checkout_request_id in
    let start = period_start c.row.current_period_end now in
    (
      p,
      c.plan,
      c.row,
      renewed c.plan p c.amount start c.row,
      start,
      c.receipt,
      found,
      c.named,
      c.has_receipt,
      c.collected ∙ ap (λ n. ok (pos n)) c.agreed,
      subst (λ l. IsCharged p c.receipt s.ledger l)
          (sym (
            ap (λ (t : Tables). t.ledger) c.stored
            ∙ ap (λ n. post_fee c.receipt p n s.ledger) c.agreed))
          (post_fee-IsCharged c.receipt p s.ledger),
      ap (find_checkout checkout) c.stored ∙ find_checkout-paid checkout p c.receipt s found,
      c.planned,
      c.located,
      ap (find_subscription p.subscription_id) c.stored
          ∙ find_subscription-renewed c.plan p c.amount start p.subscription_id c.row s c.located,
      refl,
      c.agreed,
      refl,
      refl,
      now-period_start c.row.current_period_end now,
      end-period_start c.row.current_period_end now,
      refl,
      refl,
    )

-- After a callback that reported what the chama is entitled to, a later one for the same checkout with
-- any result code is answered as a replay and changes nothing.
pub process_stk_callback-replays :
    (callback again : StkCallback) (now later : ℕ) (s : Tables) (report : CallbackReport)
    (s' : Tables) (access : Entitlements) (code : ℤ)
    → process_stk_callback callback now s ≡ ok (report, s')
    → report.subscription ≡ some access
    → trim_or_empty again.checkout_request_id ≡ trim_or_empty callback.checkout_request_id
    → again.result_code ≡ some code
    → (p : FeePayment) × (find_checkout (trim_or_empty callback.checkout_request_id) s ≡ some p)
      × (process_stk_callback again later s'
          ≡ ok ((record { payment_id = p.id; subscription = none; replayed = true }), s'))
unfolding process_stk_callback apply_callback
process_stk_callback-replays callback again now later s report s' access code h reported same
      coded =
    let (p, given, found, applied) = process-IsApplied callback now s h in
    let c = only_paid applied reported in
    let checkout = trim_or_empty callback.checkout_request_id in
    let stored =
      ap (find_checkout checkout) c.stored ∙ find_checkout-paid checkout p c.receipt s found in
    (p, found, ground (arith, same, given, coded, stored))
