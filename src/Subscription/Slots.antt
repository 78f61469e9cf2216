-- ===== src/Subscription/Slots.antt =====
-- What reserving and releasing text messages keeps (services/subscription.service.ts).
use mduara_api.Prelude.{
  ℕ, suc, zero, ◌+◌, ◌-◌, ◌≡◌, refl, ap, ◌∙◌, subst, Bool, true, false, ◌&&◌, Option, none, some,
  List, [], ◌∷◌, ◌++◌, find, any, all, update_where, ltb, leb, ◌==◌, ==_refl, if◌then◌else◌, arith,
  inl, inr, Bool-cases, find-true, find-update_self, find-update_where,
}
use mathlib.Core.Option
use mduara_api.Prelude.Outcome.{
  Outcome, ok, err, guard, require, >>=-eq-ok, ok-pair, require-some, Outcome-cases,
}
use mduara_api.Subscription.Types.{
  Plan, SmsUsage, Tables, Failure, chama_not_found, default_plan_missing,
}
use mduara_api.Subscription.Access.{
  Entitlements, resolve_subscription_entitlements, subscription_of, find_plan, plan_code_of,
}
use mduara_api.Subscription.Quota.{
  Reservation, is_usage, find_usage, used_count, count_of, bump_usage, insert_usage, take_slot,
  reserve_within, reserve_sms_quota_slot, release_sms_quota_slot,
}

abbrev pub quota_of : Option Plan → Option ℕ
quota_of none = none
quota_of (some plan) = plan.sms_quota_monthly

-- The quota of the chama's plan.
abbrev pub limit_of : ℕ → Tables → Option ℕ
limit_of chama_id s = quota_of (find_plan (plan_code_of (subscription_of chama_id s)) s)

abbrev pub fits : ℕ → Option ℕ → Bool
fits used none = true
fits used (some limit) = leb used limit

-- No chama has used more in a month than the quota of its plan.
abbrev pub IsWithin : Tables → Type 0
IsWithin s = all (λ u. fits u.used_count (limit_of u.chama_id s)) s.usage ≡ true

all-update :
    (fit : SmsUsage → Bool) (p : SmsUsage → Bool) (f : SmsUsage → SmsUsage)
    (keep : (u : SmsUsage) → fit u ≡ true → p u ≡ true → fit (f u) ≡ true) (us : List SmsUsage)
    → all fit us ≡ true
    → all fit (update_where p f us) ≡ true
all-update fit p f keep [] h = refl
all-update fit p f keep (u ∷ us) h = ground (arith, h, keep u, all-update fit p f keep us)

all-append_one :
    (fit : SmsUsage → Bool) (us : List SmsUsage) (u : SmsUsage)
    → all fit us ≡ true
    → fit u ≡ true
    → all fit (us ++ u ∷ []) ≡ true
all-append_one fit [] u h e = ground (arith, e)
all-append_one fit (x ∷ us) u h e = ground (arith, h, all-append_one fit us u)

resolved-limit :
    (chama_id now : ℕ) (s : Tables) {access : Entitlements}
    → resolve_subscription_entitlements chama_id now s ≡ ok access
    → limit_of chama_id s ≡ access.plan.sms_quota_monthly
unfolding resolve_subscription_entitlements
resolved-limit chama_id now s h =
    let (u, known, h1) =
      >>=-eq-ok (guard (any (λ id. id == chama_id) s.chamas) chama_not_found) _ h in
    let (plan, found, h2) =
      >>=-eq-ok
        (require (find_plan (plan_code_of (subscription_of chama_id s)) s) default_plan_missing) _
        h1 in
    ap quota_of (
      require-some (find_plan (plan_code_of (subscription_of chama_id s)) s) default_plan_missing
        found)
    ∙ ap (λ (o : Outcome Failure Entitlements). quota_in o) h2
  where
    quota_in : Outcome Failure Entitlements → Option ℕ
    quota_in (ok access) = access.plan.sms_quota_monthly
    quota_in (err failure) = none

same_usage :
    (chama_id month : ℕ) (u : SmsUsage) → is_usage chama_id month u ≡ true → u.chama_id ≡ chama_id
same_usage chama_id month u h = ground (arith, h)

bump_usage-IsWithin :
    (chama_id month limit : ℕ) (s : Tables)
    → limit_of chama_id s ≡ some limit
    → IsWithin s
    → IsWithin (bump_usage chama_id month limit s)
bump_usage-IsWithin chama_id month limit s l v =
    all-update (λ u. fits u.used_count (limit_of u.chama_id s)) _ _ keep s.usage v
  where
    keep :
        (u : SmsUsage)
        → fits u.used_count (limit_of u.chama_id s) ≡ true
        → (is_usage chama_id month u && ltb u.used_count limit) ≡ true
        → fits (u.used_count + 1) (limit_of u.chama_id s) ≡ true
    keep u fit taken =
        ap (fits (u.used_count + 1))
          (ap (λ c. limit_of c s) (same_usage chama_id month u (ground (arith, taken))) ∙ l)
        ∙ ground (arith, taken)

either-IsWithin :
    (test : Bool) (first second : Reservation × Tables)
    → IsWithin first.1
    → IsWithin second.1
    → IsWithin ((if test then first else second).1)
either-IsWithin true first second a b = a
either-IsWithin false first second a b = b

take_slot-IsWithin :
    (row : Option SmsUsage) (chama_id month limit : ℕ) (s : Tables)
    → limit_of chama_id s ≡ some (suc limit)
    → IsWithin s
    → IsWithin ((take_slot row chama_id month (suc limit) s).1)
take_slot-IsWithin none chama_id month limit s l v =
    all-append_one (λ u. fits u.used_count (limit_of u.chama_id s)) s.usage _ v
      (ap (fits 1) l ∙ ground arith)
take_slot-IsWithin (some row) chama_id month limit s l v =
    either-IsWithin (ltb row.used_count (suc limit)) _ _
      (bump_usage-IsWithin chama_id month (suc limit) s l v) v

reserve_within-IsWithin :
    (quota : Option ℕ) (chama_id month : ℕ) (s : Tables)
    → limit_of chama_id s ≡ quota
    → IsWithin s
    → IsWithin ((reserve_within quota chama_id month s).1)
reserve_within-IsWithin none chama_id month s l v = v
reserve_within-IsWithin (some zero) chama_id month s l v = v
reserve_within-IsWithin (some (suc limit)) chama_id month s l v =
    take_slot-IsWithin (find_usage chama_id month s) chama_id month limit s l v

release-IsWithin :
    (chama_id month : ℕ) (s : Tables)
    → IsWithin s
    → IsWithin (release_sms_quota_slot chama_id month s)
unfolding release_sms_quota_slot
release-IsWithin chama_id month s v =
    all-update (λ u. fits u.used_count (limit_of u.chama_id s)) _ _
      (λ u fit taken. fits-less u.used_count (limit_of u.chama_id s) fit) s.usage v
  where
    fits-less : (n : ℕ) (cap : Option ℕ) → fits n cap ≡ true → fits (n - 1) cap ≡ true
    fits-less n none e = refl
    fits-less n (some cap) e = ground arith

pub data QuotaCall : Type 0 where
  reserve : ℕ → ℕ → QuotaCall
  release : ℕ → ℕ → QuotaCall

abbrev pub kept : Tables → Outcome Failure (Reservation × Tables) → Tables
kept s (err failure) = s
kept s (ok done) = done.1

module _ (month_of : ℕ → ℕ) where
  -- The state after a call: an error leaves it as it was.
  unfoldable pub call : QuotaCall → Tables → Tables
  unfolding reserve_sms_quota_slot release_sms_quota_slot
  call (reserve chama_id now) s = kept s (reserve_sms_quota_slot month_of chama_id now s)
  call (release chama_id month) s = release_sms_quota_slot chama_id month s

  unfoldable pub call_all : List QuotaCall → Tables → Tables
  unfolding call
  call_all [] s = s
  call_all (c ∷ cs) s = call_all cs (call c s)

  reserve-IsWithin :
      (chama_id now : ℕ) (s : Tables)
      → IsWithin s
      → IsWithin (kept s (reserve_sms_quota_slot month_of chama_id now s))
  unfolding reserve_sms_quota_slot
  reserve-IsWithin chama_id now s v =
      elim (Outcome-cases (resolve_subscription_entitlements chama_id now s)) [
        | inl (failure, e) ↦ rw e v
        | inr (access, e) ↦ rw e (
            reserve_within-IsWithin access.plan.sms_quota_monthly chama_id (month_of now) s
              (resolved-limit chama_id now s e) v)
      ]

  call-IsWithin : (c : QuotaCall) (s : Tables) → IsWithin s → IsWithin (call c s)
  unfolding call
  call-IsWithin (reserve chama_id now) s v = reserve-IsWithin chama_id now s v
  call-IsWithin (release chama_id month) s v = release-IsWithin chama_id month s v

  -- If no chama has used more messages in a month than the quota of its plan, then this holds after
  -- any reservations and releases, by any chamas and at any times, refused ones included.
  pub call_all-IsWithin :
      (calls : List QuotaCall) (s : Tables) → IsWithin s → IsWithin (call_all calls s)
  unfolding call_all
  call_all-IsWithin [] s v = v
  call_all-IsWithin (c ∷ cs) s v = call_all-IsWithin cs (call c s) (call-IsWithin c s v)

used-release :
    (chama_id month : ℕ) (s : Tables)
    → used_count chama_id month (release_sms_quota_slot chama_id month s)
      ≡ used_count chama_id month s - 1
unfolding release_sms_quota_slot
used-release chama_id month s =
    ap count_of (find-update_self (is_usage chama_id month) _ (λ u. refl) s.usage)
    ∙ less (find_usage chama_id month s)
  where
    less :
        (row : Option SmsUsage)
        → count_of (Option.map {A = SmsUsage} (λ u. record u { used_count = u.used_count - 1 }) row)
          ≡ count_of row - 1
    less none = refl
    less (some u) = refl

find-append_none :
    {A : Type 0} (p : A → Bool) (x : A) (xs : List A)
    → find p xs ≡ none
    → p x ≡ true
    → find p (xs ++ x ∷ []) ≡ some x
find-append_none p x [] h e = ground (arith, e)
find-append_none p x (y ∷ xs) h e = ground (arith, h, e, find-append_none p x xs)

used-insert :
    (chama_id month : ℕ) (s : Tables)
    → find_usage chama_id month s ≡ none
    → used_count chama_id month (insert_usage chama_id month s) ≡ 1
used-insert chama_id month s h = ap count_of (
    find-append_none (is_usage chama_id month) _ s.usage h
      (ground (arith, ==_refl chama_id, ==_refl month)))

used-bump :
    (chama_id month limit : ℕ) (s : Tables) (row : SmsUsage)
    → find_usage chama_id month s ≡ some row
    → ltb row.used_count limit ≡ true
    → used_count chama_id month (bump_usage chama_id month limit s) ≡ row.used_count + 1
used-bump chama_id month limit s row found below =
    ap count_of (find-update_where (is_usage chama_id month) _ _ (λ u. refl) s.usage)
    ∙ ground (arith, found, below, find-true (is_usage chama_id month) s.usage {x = row} found)

-- What a slot that was taken added.
took :
    (row : Option SmsUsage) (chama_id month limit : ℕ) (s : Tables)
    → find_usage chama_id month s ≡ row
    → (take_slot row chama_id month limit s).0.reserved ≡ true
    → used_count chama_id month ((take_slot row chama_id month limit s).1)
      ≡ used_count chama_id month s + 1
took none chama_id month limit s found h = ground (arith, found, used-insert chama_id month s found)
took (some row) chama_id month limit s found h = elim (Bool-cases (ltb row.used_count limit)) [
  | inl below ↦ ground (arith, below, found, used-bump chama_id month limit s row found below)
  | inr full ↦ absurd (ground (arith, full, h))
]

reserved :
    (quota : Option ℕ) (chama_id month : ℕ) (s : Tables)
    → (reserve_within quota chama_id month s).0.reserved ≡ true
    → used_count chama_id month ((reserve_within quota chama_id month s).1)
      ≡ used_count chama_id month s + 1
reserved none chama_id month s h = cc
reserved (some zero) chama_id month s h = cc
reserved (some (suc limit)) chama_id month s h =
    took (find_usage chama_id month s) chama_id month (suc limit) s refl h

-- A reservation that takes a slot counts one message more for the chama in the month, and the release
-- of the slot gives the count of before.
pub release-reserve :
    (month_of : ℕ → ℕ) (chama_id now : ℕ) (s : Tables) (r : Reservation) (s' : Tables)
    → reserve_sms_quota_slot month_of chama_id now s ≡ ok (r, s')
    → r.reserved ≡ true
    → (used_count chama_id (month_of now) s' ≡ used_count chama_id (month_of now) s + 1)
      × (used_count chama_id (month_of now) (release_sms_quota_slot chama_id (month_of now) s')
          ≡ used_count chama_id (month_of now) s)
unfolding reserve_sms_quota_slot
release-reserve month_of chama_id now s r s' h taken =
    let (access, resolved, h1) = >>=-eq-ok (resolve_subscription_entitlements chama_id now s) _ h in
    let (same_answer, same_state) = ok-pair h1 in
    let more =
      subst (λ t. used_count chama_id (month_of now) t ≡ used_count chama_id (month_of now) s + 1)
        same_state
        (reserved access.plan.sms_quota_monthly chama_id (month_of now) s
          (ap (λ (a : Reservation). a.reserved) same_answer ∙ taken)) in
    (more, ground (arith, more, used-release chama_id (month_of now) s'))
