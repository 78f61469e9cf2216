-- ===== src/Subscription/Tests.antt =====
-- Runs of plans, quotas and payments (services/subscription.service.ts), and the theorems about them
-- at these runs.
use mduara_api.Prelude.{ℕ, ◌+◌, ◌*◌, ◌/◌, ◌≡◌, ◌≤◌, ◌<◌, ◌∷◌, [], refl, true, false, none, some}
use mduara_api.Prelude.Int.{pos}
use mduara_api.Prelude.Text.{Text, is_empty, codes, trim}
use mduara_api.Prelude.Outcome.{Outcome, ok, err}
use mduara_api.Mpesa.{trim_or_empty}
use mduara_api.Roles.{treasurer}
use mduara_api.Payment.Types.{text, number, StkCallback}
use mduara_api.Payment.Values.{normalize_kenyan_phone, big_int, metadata, value_text, or_zero}
use mduara_api.Payment.Service.{accepted, rejected, simulated}
use mduara_api.Subscription.Calendar.{monthly, annual, add_billing_period, number_of, ms_per_day}
use mduara_api.Subscription.Types.{
  free, premium, active, Plan, Subscription, FeePayment, pending, paid, Tables, Failure,
  amount_mismatch, feature_required, payment_pending, member_limit_reached,
}
use mduara_api.Subscription.Access.{
  find_plan, Entitlements, access_mode, full_access, grace_period,
  resolve_subscription_entitlements, assert_subscription_write_access,
  assert_member_onboarding_allowed, assert_subscription_feature, assert_active_loan_capacity,
  capacity_of, is_locked,
}
use mduara_api.Subscription.Quota.{
  Reservation, get_sms_quota_status, reserve_sms_quota_slot, release_sms_quota_slot, used_count,
}
use mduara_api.Subscription.Billing.{
  CallbackReport, begin_payment, process_stk_callback, apply_callback, confirm, find_checkout,
  find_subscription, initiate_payment, free_row, settle_fee,
}
use mduara_api.Subscription.Limits.{assert_member_onboarding_allowed-fits, at_most}
use mduara_api.Subscription.Slots.{
  IsWithin, reserve, release, call, call_all, call_all-IsWithin, release-reserve,
}
use mduara_api.Subscription.Charging.{at_least, IsCharged}
use mduara_api.Subscription.Settling.{process_stk_callback-renews}

abbrev at_day : ℕ → ℕ → ℕ → ℕ
at_day year month day = number_of (record { year = year; month = month; day = day }) * ms_per_day

epoch : at_day 1970 1 1 ≡ 0
epoch = refl

-- The last day of January is followed by the last one of February.
month_end : add_billing_period (at_day 2024 1 31) monthly ≡ at_day 2024 2 29
unfolding add_billing_period
month_end = refl

leap_year : add_billing_period (at_day 2024 2 29) annual ≡ at_day 2025 2 28
unfolding add_billing_period
leap_year = refl

year_end : add_billing_period (at_day 2025 12 15 + 5) monthly ≡ at_day 2026 1 15 + 5
unfolding add_billing_period
year_end = refl

abbrev free_plan : Plan
free_plan = record {
  code = codes "free";
  name = codes "Free";
  tier = free;
  billing_frequency = monthly;
  price_amount = none;
  currency = codes "KES";
  max_members = some 10;
  max_active_loans = some 2;
  sms_quota_monthly = some 2;
  allows_detailed_pdf = false;
  is_active = true;
}

abbrev premium_plan : Plan
premium_plan = record {
  code = codes "premium";
  name = codes "Premium";
  tier = premium;
  billing_frequency = monthly;
  price_amount = some 500;
  currency = codes "KES";
  max_members = none;
  max_active_loans = none;
  sms_quota_monthly = some 100;
  allows_detailed_pdf = true;
  is_active = true;
}

abbrev start : Tables
start = record {
  chamas = 1 ∷ [];
  plans = free_plan ∷ premium_plan ∷ [];
  subscriptions = [];
  payments = [];
  usage = [];
  members = (record { chama_id = 1; user_id = 11; role = treasurer; is_active = true }) ∷ [];
  loans = [];
  ledger = record { chamas = []; transactions = []; next_id = 500 };
  audits = [];
  next_id = 900;
}

-- A month holds 1000 units of time.
abbrev month_of : ℕ → ℕ
month_of now = now / 1000

abbrev first_slot : Reservation × Tables
first_slot = (
  record { allowed = true; reserved = true; period_month = 7; limit = some 2; used = some 1 },
  record start { usage = (record { chama_id = 1; period_month = 7; used_count = 1 }) ∷ [] },
)

reserves : reserve_sms_quota_slot month_of 1 7005 start ≡ ok first_slot
unfolding reserve_sms_quota_slot resolve_subscription_entitlements access_mode
reserves = refl

-- The third message of a month is refused.
quota_used :
    call_all month_of (reserve 1 7005 ∷ reserve 1 7006 ∷ reserve 1 7007 ∷ []) start
    ≡ record start { usage = (record { chama_id = 1; period_month = 7; used_count = 2 }) ∷ [] }
unfolding call_all call reserve_sms_quota_slot resolve_subscription_entitlements access_mode
quota_used = refl

release-reserve_example :
    (used_count 1 7 (first_slot.1) ≡ used_count 1 7 start + 1)
    × (used_count 1 7 (release_sms_quota_slot 1 7 (first_slot.1)) ≡ used_count 1 7 start)
release-reserve_example =
    release-reserve month_of 1 7005 start (first_slot.0) (first_slot.1) reserves refl

call_all-IsWithin_example :
    IsWithin (call_all month_of (reserve 1 7005 ∷ reserve 1 7006 ∷ release 1 7 ∷ []) start)
call_all-IsWithin_example =
    call_all-IsWithin month_of (reserve 1 7005 ∷ reserve 1 7006 ∷ release 1 7 ∷ []) start refl

abbrev entitled : Entitlements
entitled = record {
  chama_id = 1;
  subscription_id = none;
  plan = free_plan;
  price_configured = true;
  commercial_limits_configured = true;
  access_mode = full_access;
  current_period_start = none;
  current_period_end = none;
  grace_ends_at = none;
}

admits : assert_member_onboarding_allowed 50 1 9 (some 20) 7005 start ≡ ok (entitled, 10)
unfolding assert_member_onboarding_allowed assert_subscription_write_access
    resolve_subscription_entitlements capacity_of access_mode
admits = refl

is_full : assert_member_onboarding_allowed 50 1 10 (some 20) 7005 start ≡ err member_limit_reached
unfolding assert_member_onboarding_allowed assert_subscription_write_access
    resolve_subscription_entitlements capacity_of access_mode
is_full = refl

assert_member_onboarding_allowed-fits_example :
    (is_locked full_access ≡ false)
    × (9 < 10)
    × (10 ≤ 50)
    × (at_most 10 (some 20) ≡ true)
    × (at_most 10 (some 10) ≡ true)
assert_member_onboarding_allowed-fits_example =
    assert_member_onboarding_allowed-fits 50 1 9 (some 20) 7005 start entitled 10 admits

abbrev subscribed : Subscription
subscribed = record (free_row 900 1) { current_period_end = some 50; grace_ends_at = some 70 }

in_grace : access_mode premium (some subscribed) 60 ≡ grace_period
unfolding access_mode
in_grace = refl

abbrev open_payment : FeePayment
open_payment = record {
  id = 901;
  subscription_id = 900;
  chama_id = 1;
  plan_code = codes "premium";
  billing_frequency = monthly;
  amount = 500;
  currency = codes "KES";
  initiated_by = some 11;
  phone_number = codes "254712345678";
  checkout_request_id = some (codes "ws_1");
  receipt_number = none;
  status = pending;
  result_code = none;
}

-- The gateway takes the payment.
abbrev asked : Outcome Failure ℕ × Tables
asked = (
  ok 901,
  record start { subscriptions = free_row 900 1 ∷ []; payments = open_payment ∷ []; next_id = 902 },
)

asks :
    initiate_payment true 11 1
      (codes "premium")
      (codes "0712345678")
      (accepted (codes "ws_1"))
      0
      start
    ≡ asked
unfolding initiate_payment begin_payment normalize_kenyan_phone
asks = refl

asks_again :
    initiate_payment true 11 1 (codes "premium") (codes "0712345678") rejected 0 (asked.1)
    ≡ (err payment_pending, asked.1)
unfolding initiate_payment begin_payment normalize_kenyan_phone
asks_again = refl

abbrev callback_of : ℕ → StkCallback
callback_of amount = record {
  checkout_request_id = some (codes " ws_1");
  result_code = some (pos 0);
  items =
      (codes "Amount", number (pos amount)) ∷ (codes "MpesaReceiptNumber", text (codes "QX1")) ∷ [];
}

-- The error of a simulated callback leaves the payment pending.
simulation_fails :
    initiate_payment true 11 1
      (codes "premium")
      (codes "0712345678")
      (simulated (codes "ws_1") (callback_of 400))
      0
      start
    ≡ (err amount_mismatch, asked.1)
unfolding initiate_payment begin_payment normalize_kenyan_phone process_stk_callback apply_callback
    confirm big_int trim
simulation_fails = refl

abbrev renewed_state : Tables
renewed_state =
    settle_fee premium_plan open_payment (free_row 900 1) 500 (codes "QX1") (at_day 2025 1 31)
      (asked.1)

abbrev renewed_access : Entitlements
renewed_access = record {
  chama_id = 1;
  subscription_id = some 900;
  plan = premium_plan;
  price_configured = true;
  commercial_limits_configured = false;
  access_mode = full_access;
  current_period_start = some (at_day 2025 1 31);
  current_period_end = some (at_day 2025 2 28);
  grace_ends_at = some (at_day 2025 3 7);
}

abbrev renewed_report : CallbackReport
renewed_report = record { payment_id = 901; subscription = some renewed_access; replayed = false }

renews :
    process_stk_callback (callback_of 500) (at_day 2025 1 31) (asked.1)
    ≡ ok (renewed_report, renewed_state)
unfolding process_stk_callback apply_callback confirm big_int trim resolve_subscription_entitlements
    access_mode add_billing_period
renews = refl

process_stk_callback-renews_example :
    (p : FeePayment) × (plan : Plan) × (before : Subscription) × (after : Subscription)
    × (began : ℕ) × (receipt : Text) × (find_checkout
          (trim_or_empty (callback_of 500).checkout_request_id)
          (asked.1)
        ≡ some p)
    × (receipt ≡ trim (value_text (metadata (codes "MpesaReceiptNumber") (callback_of 500).items)))
    × (is_empty receipt ≡ false)
    × (big_int (or_zero (metadata (codes "Amount") (callback_of 500).items)) ≡ ok (pos p.amount))
    × IsCharged p receipt (asked.1).ledger renewed_state.ledger
    × (find_checkout (trim_or_empty (callback_of 500).checkout_request_id) renewed_state
        ≡ some
            (record p { status = paid; result_code = some (pos 0); receipt_number = some receipt }))
    × (find_plan p.plan_code (asked.1) ≡ some plan)
    × (find_subscription p.subscription_id (asked.1) ≡ some before)
    × (find_subscription p.subscription_id renewed_state ≡ some after)
    × (after.plan_code ≡ plan.code)
    × (after.amount ≡ p.amount)
    × (after.status ≡ active)
    × (after.current_period_start ≡ some began)
    × (at_day 2025 1 31 ≤ began)
    × (at_least before.current_period_end began ≡ true)
    × (after.current_period_end ≡ some (add_billing_period began p.billing_frequency))
    × (after.grace_ends_at ≡ some (add_billing_period began p.billing_frequency + 604_800_000))
process_stk_callback-renews_example =
    process_stk_callback-renews (callback_of 500) (at_day 2025 1 31) (asked.1) renewed_report
      renewed_state renewed_access renews refl

no_export : assert_subscription_feature 1 7005 start ≡ err feature_required
unfolding assert_subscription_feature resolve_subscription_entitlements access_mode
no_export = refl

may_lend : assert_active_loan_capacity 1 7005 start ≡ ok entitled
unfolding assert_active_loan_capacity assert_subscription_write_access
    resolve_subscription_entitlements access_mode
may_lend = refl

quota_left :
    get_sms_quota_status month_of 1 7005 (first_slot.1)
    ≡ ok (record { limit = some 2; used = 1; remaining = some 1; configured = true })
unfolding get_sms_quota_status resolve_subscription_entitlements access_mode
quota_left = refl
