-- ===== src/Subscription/Limits.antt =====
-- The access of a plan over time, and the members it admits (services/subscription.service.ts).
use mduara_api.Prelude.{
  ℕ, ◌≤◌, ◌<◌, ◌≡◌, ◌∙◌, subst, Bool, true, false, Option, none, some, leb, if◌then◌else◌, arith,
}
use mduara_api.Prelude.Outcome.{Outcome, ok, refuse, >>=-eq-ok, ok-pair, refuse-false}
use mduara_api.Subscription.Types.{
  Tier, free, premium, Subscription, Tables, read_only, member_limit_reached, capacity_reached,
}
use mduara_api.Subscription.Access.{
  AccessMode, full_access, grace_period, locked, is_locked, paid_mode, not_after, access_mode,
  Entitlements, resolve_subscription_entitlements, assert_subscription_write_access,
  assert_member_onboarding_allowed, capacity_of, equals_cap,
}

-- How far the access is restricted.
abbrev pub restriction : AccessMode → ℕ
restriction full_access = 0
restriction grace_period = 1
restriction locked = 2

not_after-earlier :
    (time : Option ℕ) (now later : ℕ)
    → now ≤ later
    → not_after later time ≡ true
    → not_after now time ≡ true
not_after-earlier none now later h e = e
not_after-earlier (some t) now later h e = ground arith

paid_mode-monotone :
    (is_active : Bool) (period_end grace_end : Option ℕ) (now later : ℕ)
    → now ≤ later
    → restriction (paid_mode is_active period_end grace_end now)
      ≤ restriction (paid_mode is_active period_end grace_end later)
paid_mode-monotone is_active period_end grace_end now later h =
    ground
      (arith, not_after-earlier period_end now later h, not_after-earlier grace_end now later h)

-- As long as a subscription and its plan stay as they are, the access at a later time is restricted
-- at least as far as at an earlier one: from full access over the grace period to read-only.
pub access_mode-monotone :
    (tier : Tier) (subscription : Option Subscription) (now later : ℕ)
    → now ≤ later
    → restriction (access_mode tier subscription now)
      ≤ restriction (access_mode tier subscription later)
unfolding access_mode
access_mode-monotone free subscription now later h = omega arith
access_mode-monotone premium none now later h = paid_mode-monotone true none none now later h
access_mode-monotone premium (some s) now later h = paid_mode-monotone _ _ _ now later h

ok-injective : {E A : Type 0} {a b : A} → ◌≡◌ {A = Outcome E A} (ok a) (ok b) → a ≡ b
ok-injective h = cc

abbrev pub at_most : ℕ → Option ℕ → Bool
at_most n none = true
at_most n (some cap) = leb n cap

capacity_of-at_most :
    (max_members : ℕ) (target plan_cap : Option ℕ)
    → (capacity_of max_members target plan_cap ≤ max_members)
      × (at_most (capacity_of max_members target plan_cap) target ≡ true)
      × (at_most (capacity_of max_members target plan_cap) plan_cap ≡ true)
unfolding capacity_of
capacity_of-at_most m none none = (ground arith, ground arith, ground arith)
capacity_of-at_most m none (some p) = (ground arith, ground arith, ground arith)
capacity_of-at_most m (some t) none = (ground arith, ground arith, ground arith)
capacity_of-at_most m (some t) (some p) = (ground arith, ground arith, ground arith)

not-leb : (a b : ℕ) → leb a b ≡ false → b < a
not-leb a b h = ground arith

-- If a chama may admit a member, then its plan is not read-only, the seats that are taken are fewer
-- than the capacity, and the capacity is at most the limit for all chamas, the target of the chama
-- and the limit of its plan, where it has these.
pub assert_member_onboarding_allowed-fits :
    (max_members chama_id occupied : ℕ) (target : Option ℕ) (now : ℕ) (s : Tables)
    (access : Entitlements) (capacity : ℕ)
    → assert_member_onboarding_allowed max_members chama_id occupied target now s
      ≡ ok (access, capacity)
    → (is_locked access.access_mode ≡ false)
      × (occupied < capacity)
      × (capacity ≤ max_members)
      × (at_most capacity target ≡ true)
      × (at_most capacity access.plan.max_members ≡ true)
unfolding assert_member_onboarding_allowed assert_subscription_write_access
assert_member_onboarding_allowed-fits max_members chama_id occupied target now s access capacity h =
    let (found, h0, h1) = >>=-eq-ok (assert_subscription_write_access chama_id now s) _ h in
    let (resolved, h2, h3) = >>=-eq-ok (resolve_subscription_entitlements chama_id now s) _ h0 in
    let (u, unlocking, h4) = >>=-eq-ok (refuse (is_locked resolved.access_mode) read_only) _ h3 in
    let cap = capacity_of max_members target found.plan.max_members in
    let (v, free_seat, h5) =
      >>=-eq-ok
        (refuse (leb cap occupied) (
          if equals_cap found.plan.max_members cap then member_limit_reached else capacity_reached))
        _ h1 in
    let (same_access, same_capacity) = ok-pair h5 in
    let (a, b, c) = capacity_of-at_most max_members target found.plan.max_members in
    let seats = not-leb cap occupied (refuse-false (leb cap occupied) _ free_seat) in
    let unlocked = refuse-false (is_locked resolved.access_mode) read_only unlocking in
    (
      subst (λ (e : Entitlements). is_locked e.access_mode ≡ false) (ok-injective h4 ∙ same_access)
          unlocked,
      subst (λ n. occupied < n) same_capacity seats,
      subst (λ n. n ≤ max_members) same_capacity a,
      subst (λ n. at_most n target ≡ true) same_capacity b,
      subst (λ (e : Entitlements). at_most capacity e.plan.max_members ≡ true) same_access
          (subst (λ n. at_most n found.plan.max_members ≡ true) same_capacity c),
    )
