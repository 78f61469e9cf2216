-- ===== src/Subscription/Billing.antt =====
-- How a plan is paid for (services/subscription.service.ts).
use mduara_api.Prelude.{
  ℕ, suc, ◌+◌, ◌*◌, Bool, true, false, not, ◌&&◌, Option, none, some, [], ◌∷◌, ◌++◌, find, any,
  update_where, ltb, ◌==◌, if◌then◌else◌,
}
use mduara_api.Prelude.Int.{ℤ, pos}
use mduara_api.Prelude.Text.{Text, text_eq, codes, trim, is_empty}
use mduara_api.Prelude.Outcome.{Outcome, ok, err, ◌>>=◌, ◌>>◌, guard, refuse, require}
use mduara_api.Mpesa.{trim_or_empty}
use mduara_api.Ledger.Types.{
  external_clearing, platform_fee_revenue, platform_fee, Transaction, Ledger,
}
use mduara_api.Ledger.Journals.{two_entries}
use mduara_api.Ledger.Operations.{find_reference, append_journal}
use mduara_api.Payment.Types.{StkCallback}
use mduara_api.Payment.Values.{normalize_kenyan_phone, metadata, value_text, or_zero, big_int}
use mduara_api.Payment.Service.{GatewayAnswer, rejected, accepted, simulated, is_zero}
use mduara_api.Subscription.Calendar.{monthly, add_billing_period, ms_per_day}
use mduara_api.Subscription.Types.{
  active, PaymentStatus, pending, paid, failed, Plan, Subscription, FeePayment, Tables, Failure,
  chama_not_found, plan_not_payable, price_not_configured, not_configured, payment_pending,
  phone_invalid, gateway_failed, callback_invalid, checkout_unknown, metadata_invalid,
  amount_mismatch, receipt_conflict, subscription_not_found, unreadable_number,
}
use mduara_api.Subscription.Access.{
  Entitlements, is_free, subscription_of, resolve_subscription_entitlements, require_plan,
  assert_leadership,
}

-- What services/payment.service.ts reads in the same way, with the error of this service.
abbrev pub read_as : {E A : Type 0} → Failure → Outcome E A → Outcome Failure A
read_as failure (err e) = err failure
read_as failure (ok value) = ok value

-- `price_amount === null || BigInt(price_amount) <= 0n`
abbrev pub price_of : Option ℕ → Outcome Failure ℕ
price_of (some (suc n)) = ok (suc n)
price_of _ = err price_not_configured

abbrev pub free_row : ℕ → ℕ → Subscription
free_row id chama_id = record {
  id = id;
  chama_id = chama_id;
  plan_code = codes "free";
  plan_name = codes "Free";
  billing_frequency = monthly;
  amount = 0;
  status = active;
  current_period_start = none;
  current_period_end = none;
  grace_ends_at = none;
}

abbrev pub upsert_subscription : Option Subscription → ℕ → Tables → ℕ × Tables
upsert_subscription (some p) chama_id s = (p.id, s)
upsert_subscription none chama_id s = (
  s.next_id,
  record s {
    subscriptions = s.subscriptions ++ free_row s.next_id chama_id ∷ [];
    next_id = s.next_id + 1;
  },
)

abbrev pub ensure_subscription_row : ℕ → Tables → Outcome Failure (ℕ × Tables)
ensure_subscription_row chama_id s = do
  guard (any (λ id. id == chama_id) s.chamas) chama_not_found
  ok (upsert_subscription (subscription_of chama_id s) chama_id s)

abbrev pub is_open_payment : PaymentStatus → Bool
is_open_payment pending = true
is_open_payment _ = false

abbrev pub is_paid : PaymentStatus → Bool
is_paid paid = true
is_paid _ = false

abbrev pub has_pending : ℕ → Tables → Bool
has_pending chama_id s = any (λ p. p.chama_id == chama_id && is_open_payment p.status) s.payments

abbrev pub new_payment : ℕ → ℕ → ℕ → Plan → ℕ → ℕ → Text → FeePayment
new_payment id subscription_id chama_id plan amount actor_id phone = record {
  id = id;
  subscription_id = subscription_id;
  chama_id = chama_id;
  plan_code = plan.code;
  billing_frequency = plan.billing_frequency;
  amount = amount;
  currency = plan.currency;
  initiated_by = some actor_id;
  phone_number = phone;
  checkout_request_id = none;
  receipt_number = none;
  status = pending;
  result_code = none;
}

abbrev pub insert_payment : FeePayment → Tables → FeePayment × Tables
insert_payment p s = (p, record s { payments = s.payments ++ p ∷ []; next_id = s.next_id + 1 })

-- The transaction of `initiatePayment`; `configured` is false for the provider 'daraja' without a
-- URL for its callbacks.
unfoldable pub begin_payment :
    Bool → ℕ → ℕ → Text → Text → Tables → Outcome Failure (FeePayment × Tables)
unfolding normalize_kenyan_phone
begin_payment configured actor_id chama_id plan_code phone_number s = do
  assert_leadership actor_id chama_id s
  plan ← require_plan plan_code true s
  refuse (is_free plan.tier) plan_not_payable
  amount ← price_of plan.price_amount
  guard configured not_configured
  row ← ensure_subscription_row chama_id s
  refuse (has_pending chama_id row.1) payment_pending
  phone ← read_as phone_invalid (normalize_kenyan_phone phone_number)
  ok (insert_payment (new_payment row.1.next_id row.0 chama_id plan amount actor_id phone) row.1)

abbrev pub update_payment : (FeePayment → Bool) → (FeePayment → FeePayment) → Tables → Tables
update_payment p f s = record s { payments = update_where p f s.payments }

-- `WHERE id = $1 AND status = 'pending'`
abbrev pub is_waiting : ℕ → FeePayment → Bool
is_waiting id p = p.id == id && is_open_payment p.status

abbrev pub record_checkout : ℕ → Text → Tables → Tables
record_checkout id checkout =
    update_payment (is_waiting id) (λ p. record p { checkout_request_id = some checkout })

abbrev pub fail_payment : ℕ → Tables → Tables
fail_payment id = update_payment (is_waiting id) (λ p. record p { status = failed })

abbrev pub refuse_payment : ℕ → ℤ → Tables → Tables
refuse_payment id code =
    update_payment (λ p. p.id == id) (λ p. record p { status = failed; result_code = some code })

abbrev pub confirm_payment : ℕ → Text → Tables → Tables
confirm_payment id receipt =
    update_payment (λ p. p.id == id)
      (λ p. record p { status = paid; result_code = some (pos 0); receipt_number = some receipt })

abbrev pub is_text : Option Text → Text → Bool
is_text none value = false
is_text (some t) value = text_eq t value

abbrev pub find_checkout : Text → Tables → Option FeePayment
find_checkout checkout s = find (λ p. is_text p.checkout_request_id checkout) s.payments

-- The receipt on another payment.
abbrev pub is_taken : Text → ℕ → Tables → Bool
is_taken receipt id s = any (λ p. is_text p.receipt_number receipt && not (p.id == id)) s.payments

abbrev pub find_subscription : ℕ → Tables → Option Subscription
find_subscription id s = find (λ p. p.id == id) s.subscriptions

-- The end of the period that is paid for, if it is still to come, or now.
abbrev pub period_start : Option ℕ → ℕ → ℕ
period_start none now = now
period_start (some time) now = if ltb now time then time else now

abbrev pub fee_reference : Text → Text
fee_reference receipt = codes "mpesa:subscription:" ++ receipt

abbrev pub fee_journal : ℕ → Text → FeePayment → ℕ → Transaction
fee_journal id reference p amount = record {
  id = id;
  operation_type = platform_fee;
  reference = reference;
  initiated_by = p.initiated_by;
  currency = p.currency;
  entries = two_entries p.chama_id none external_clearing none platform_fee_revenue amount;
}

-- The journal of the receipt: the one that is there, or a new one.
abbrev pub post_fee : Text → FeePayment → ℕ → Ledger → Ledger
post_fee receipt p amount l = elim (find_reference (fee_reference receipt) l.transactions) [
  | some t ↦ l
  | none ↦ append_journal (fee_journal l.next_id (fee_reference receipt) p amount) l
]

-- The week after the period.
abbrev pub grace_after : ℕ → ℕ
grace_after period_end = period_end + 7 * ms_per_day

abbrev pub renewed : Plan → FeePayment → ℕ → ℕ → Subscription → Subscription
renewed plan p amount start row = record row {
  plan_code = plan.code;
  plan_name = plan.name;
  billing_frequency = p.billing_frequency;
  amount = amount;
  status = active;
  current_period_start = some start;
  current_period_end = some (add_billing_period start p.billing_frequency);
  grace_ends_at = some (grace_after (add_billing_period start p.billing_frequency));
}

abbrev pub renew_subscription : ℕ → Plan → FeePayment → ℕ → ℕ → Tables → Tables
renew_subscription id plan p amount start s = record s {
  subscriptions = update_where (λ r. r.id == id) (renewed plan p amount start) s.subscriptions;
}

abbrev pub write_audit : ℕ → Tables → Tables
write_audit payment_id s = record s { audits = s.audits ++ payment_id ∷ [] }

-- What is written for a payment that the provider has collected.
abbrev pub settle_fee : Plan → FeePayment → Subscription → ℕ → Text → ℕ → Tables → Tables
settle_fee plan p row amount receipt now s = write_audit p.id (
    confirm_payment p.id receipt (
      renew_subscription row.id plan p amount (period_start row.current_period_end now)
        (record s { ledger = post_fee receipt p amount s.ledger })))

-- `replayed`, and what the chama is entitled to where a payment is confirmed.
pub record CallbackReport : Type 0 where
  pub payment_id : ℕ
  pub subscription : Option Entitlements
  pub replayed : Bool

abbrev pub positive : ℤ → Outcome Failure ℕ
positive (pos (suc n)) = ok (suc n)
positive _ = err metadata_invalid

unfoldable pub confirm :
    FeePayment → StkCallback → ℕ → Tables → Outcome Failure (CallbackReport × Tables)
unfolding big_int resolve_subscription_entitlements
confirm p callback now s = do
  let receipt = trim (value_text (metadata (codes "MpesaReceiptNumber") callback.items))
  value ← read_as unreadable_number (big_int (or_zero (metadata (codes "Amount") callback.items)))
  refuse (is_empty receipt) metadata_invalid
  amount ← positive value
  guard (amount == p.amount) amount_mismatch
  plan ← require_plan p.plan_code false s
  refuse (is_taken receipt p.id s) receipt_conflict
  row ← require (find_subscription p.subscription_id s) subscription_not_found
  let s' = settle_fee plan p row amount receipt now s
  access ← resolve_subscription_entitlements p.chama_id now s'
  ok ((record { payment_id = p.id; subscription = some access; replayed = false }), s')

unfoldable pub apply_callback :
    FeePayment → StkCallback → ℤ → ℕ → Tables → Outcome Failure (CallbackReport × Tables)
apply_callback p callback code now s =
    if is_paid p.status
    then ok ((record { payment_id = p.id; subscription = none; replayed = true }), s)
    else if not (is_zero code)
    then ok (
      (record { payment_id = p.id; subscription = none; replayed = false }),
      refuse_payment p.id code s,
    )
    else confirm p callback now s

-- `processStkCallback`
unfoldable pub process_stk_callback :
    StkCallback → ℕ → Tables → Outcome Failure (CallbackReport × Tables)
unfolding apply_callback
process_stk_callback callback now s = do
  let checkout = trim_or_empty callback.checkout_request_id
  refuse (is_empty checkout) callback_invalid
  code ← require callback.result_code callback_invalid
  p ← require (find_checkout checkout s) checkout_unknown
  apply_callback p callback code now s

abbrev pub after_gateway : GatewayAnswer → ℕ → ℕ → Tables → Outcome Failure ℕ × Tables
after_gateway rejected id now s = (err gateway_failed, fail_payment id s)
after_gateway (accepted checkout) id now s = (ok id, record_checkout id checkout s)
after_gateway (simulated checkout callback) id now s =
    let recorded = record_checkout id checkout s in
    elim (process_stk_callback callback now recorded) [
      | err failure ↦ (err failure, recorded)
      | ok done ↦ (ok id, done.1)
    ]

-- `initiatePayment`; the promise of a simulated callback is returned and not awaited, so that its
-- error passes the `catch` by.
unfoldable pub initiate_payment :
    Bool → ℕ → ℕ → Text → Text → GatewayAnswer → ℕ → Tables → Outcome Failure ℕ × Tables
unfolding begin_payment process_stk_callback
initiate_payment configured actor_id chama_id plan_code phone_number answer now s =
    elim (begin_payment configured actor_id chama_id plan_code phone_number s) [
      | err failure ↦ (err failure, s)
      | ok begun ↦ after_gateway answer begun.0.id now begun.1
    ]
