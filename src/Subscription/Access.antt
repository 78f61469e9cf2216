-- ===== src/Subscription/Access.antt =====
-- What a chama's plan allows it (services/subscription.service.ts).
use mduara_api.Prelude.{
  ℕ, Bool, true, false, not, ◌&&◌, ◌||◌, Option, none, some, find, any, count_where, ltb, leb, ◌==◌,
  if◌then◌else◌,
}
use mduara_api.Prelude.Text.{Text, text_eq, codes}
use mduara_api.Prelude.Outcome.{Outcome, ok, ◌>>=◌, ◌>>◌, guard, refuse, require}
use mduara_api.Roles.{Role, is_leadership}
use mduara_api.Subscription.Types.{
  Tier, free, premium, SubscriptionStatus, active, Plan, Subscription, Member, Tables, Failure,
  chama_not_found, default_plan_missing, read_only, feature_required, member_limit_reached,
  capacity_reached, loan_limit_reached, membership_inactive, role_forbidden, plan_not_found,
  plan_inactive,
}

-- `SubscriptionAccessMode`
pub data AccessMode : Type 0 where
  full_access grace_period locked : AccessMode

abbrev pub is_locked : AccessMode → Bool
is_locked locked = true
is_locked _ = false

-- `SubscriptionFeature` has one value, `detailed_pdf_export`.
pub record Entitlements : Type 0 where
  pub chama_id : ℕ
  pub subscription_id : Option ℕ
  pub plan : Plan
  pub price_configured : Bool
  pub commercial_limits_configured : Bool
  pub access_mode : AccessMode
  pub current_period_start : Option ℕ
  pub current_period_end : Option ℕ
  pub grace_ends_at : Option ℕ

abbrev pub is_free : Tier → Bool
is_free free = true
is_free premium = false

abbrev pub is_active_status : SubscriptionStatus → Bool
is_active_status active = true
is_active_status _ = false

abbrev pub is_above_zero : Option ℕ → Bool
is_above_zero none = false
is_above_zero (some n) = ltb 0 n

abbrev pub is_given : Option ℕ → Bool
is_given none = false
is_given (some n) = true

-- `time !== null && now <= time`
abbrev pub not_after : ℕ → Option ℕ → Bool
not_after now none = false
not_after now (some time) = leb now time

-- The access of a paid plan.
abbrev pub paid_mode : Bool → Option ℕ → Option ℕ → ℕ → AccessMode
paid_mode is_active period_end grace_end now =
    if not is_active || not (is_given period_end)
    then locked
    else if not_after now period_end
    then full_access
    else if not_after now grace_end
    then grace_period
    else locked

-- Without a subscription the status is 'active' and the period has no end.
unfoldable pub access_mode : Tier → Option Subscription → ℕ → AccessMode
access_mode free subscription now = full_access
access_mode premium none now = paid_mode true none none now
access_mode premium (some s) now =
    paid_mode (is_active_status s.status) s.current_period_end s.grace_ends_at now

abbrev pub subscription_of : ℕ → Tables → Option Subscription
subscription_of chama_id s = find (λ p. p.chama_id == chama_id) s.subscriptions

abbrev pub find_plan : Text → Tables → Option Plan
find_plan code s = find (λ p. text_eq p.code code) s.plans

-- `COALESCE((SELECT plan_code …), 'free')`
abbrev pub plan_code_of : Option Subscription → Text
plan_code_of none = codes "free"
plan_code_of (some p) = p.plan_code

abbrev pub id_of : Option Subscription → Option ℕ
id_of none = none
id_of (some p) = some p.id

abbrev pub start_of : Option Subscription → Option ℕ
start_of none = none
start_of (some p) = p.current_period_start

abbrev pub end_of : Option Subscription → Option ℕ
end_of none = none
end_of (some p) = p.current_period_end

abbrev pub grace_of : Option Subscription → Option ℕ
grace_of none = none
grace_of (some p) = p.grace_ends_at

abbrev pub price_configured : Plan → Bool
price_configured plan = is_free plan.tier || is_above_zero plan.price_amount

-- `serializeEntitlements`
abbrev pub serialize_entitlements : ℕ → Plan → Option Subscription → ℕ → Entitlements
serialize_entitlements chama_id plan subscription now = record {
  chama_id = chama_id;
  subscription_id = id_of subscription;
  plan = plan;
  price_configured = price_configured plan;
  commercial_limits_configured =
      is_given plan.max_members
      && is_given plan.max_active_loans
      && is_given plan.sms_quota_monthly;
  access_mode = access_mode plan.tier subscription now;
  current_period_start = start_of subscription;
  current_period_end = end_of subscription;
  grace_ends_at = grace_of subscription;
}

unfoldable pub resolve_subscription_entitlements : ℕ → ℕ → Tables → Outcome Failure Entitlements
resolve_subscription_entitlements chama_id now s = do
  guard (any (λ id. id == chama_id) s.chamas) chama_not_found
  plan ← require (find_plan (plan_code_of (subscription_of chama_id s)) s) default_plan_missing
  ok (serialize_entitlements chama_id plan (subscription_of chama_id s) now)

unfoldable pub assert_subscription_write_access : ℕ → ℕ → Tables → Outcome Failure Entitlements
unfolding resolve_subscription_entitlements
assert_subscription_write_access chama_id now s = do
  access ← resolve_subscription_entitlements chama_id now s
  refuse (is_locked access.access_mode) read_only
  ok access

-- `assertSubscriptionFeature` for 'detailed_pdf_export'.
unfoldable pub assert_subscription_feature : ℕ → ℕ → Tables → Outcome Failure Entitlements
unfolding resolve_subscription_entitlements
assert_subscription_feature chama_id now s = do
  access ← resolve_subscription_entitlements chama_id now s
  refuse (is_locked access.access_mode) read_only
  guard access.plan.allows_detailed_pdf feature_required
  ok access

abbrev pub min_cap : ℕ → Option ℕ → ℕ
min_cap cap none = cap
min_cap cap (some other) = if ltb other cap then other else cap

-- `Math.min(...caps)`
unfoldable pub capacity_of : ℕ → Option ℕ → Option ℕ → ℕ
capacity_of max_members target_members plan_cap =
    min_cap (min_cap max_members target_members) plan_cap

abbrev pub equals_cap : Option ℕ → ℕ → Bool
equals_cap none n = false
equals_cap (some cap) n = cap == n

-- The first argument is `env.CHAMA_MAX_MEMBERS`.
unfoldable pub assert_member_onboarding_allowed :
    ℕ → ℕ → ℕ → Option ℕ → ℕ → Tables → Outcome Failure (Entitlements × ℕ)
unfolding assert_subscription_write_access capacity_of
assert_member_onboarding_allowed max_members chama_id occupied target_members now s = do
  access ← assert_subscription_write_access chama_id now s
  let capacity = capacity_of max_members target_members access.plan.max_members
  refuse (leb capacity occupied) (
      if equals_cap access.plan.max_members capacity
      then member_limit_reached
      else capacity_reached)
  ok (access, capacity)

abbrev pub open_loans : ℕ → Tables → ℕ
open_loans chama_id s = count_where (λ l. l.chama_id == chama_id && l.is_open) s.loans

abbrev pub below : ℕ → Option ℕ → Bool
below count none = true
below count (some limit) = ltb count limit

unfoldable pub assert_active_loan_capacity : ℕ → ℕ → Tables → Outcome Failure Entitlements
unfolding assert_subscription_write_access
assert_active_loan_capacity chama_id now s = do
  access ← assert_subscription_write_access chama_id now s
  guard (below (open_loans chama_id s) access.plan.max_active_loans) loan_limit_reached
  ok access

abbrev pub require_plan : Text → Bool → Tables → Outcome Failure Plan
require_plan code require_active s = do
  plan ← require (find_plan code s) plan_not_found
  refuse (require_active && not plan.is_active) plan_inactive
  ok plan

abbrev pub find_membership : ℕ → ℕ → Tables → Option Member
find_membership user_id chama_id s =
    find (λ m. m.chama_id == chama_id && m.user_id == user_id && m.is_active) s.members

abbrev pub assert_active_membership : ℕ → ℕ → Tables → Outcome Failure Role
assert_active_membership user_id chama_id s = do
  member ← require (find_membership user_id chama_id s) membership_inactive
  ok member.role

abbrev pub assert_leadership : ℕ → ℕ → Tables → Outcome Failure (Unit {0})
assert_leadership user_id chama_id s = do
  role ← assert_active_membership user_id chama_id s
  guard (is_leadership role) role_forbidden
