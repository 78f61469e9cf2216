-- ===== src/Subscription/Quota.antt =====
-- The monthly quota of text messages (services/subscription.service.ts).
use mduara_api.Prelude.{
  ℕ, zero, suc, ◌+◌, ◌-◌, Bool, true, false, ◌&&◌, Option, none, some, [], ◌∷◌, ◌++◌, find,
  update_where, ltb, ◌==◌, if◌then◌else◌,
}
use mduara_api.Prelude.Outcome.{Outcome, ok, ◌>>=◌}
use mduara_api.Subscription.Types.{SmsUsage, Tables, Failure}
use mduara_api.Subscription.Access.{resolve_subscription_entitlements}

abbrev pub is_usage : ℕ → ℕ → SmsUsage → Bool
is_usage chama_id month u = u.chama_id == chama_id && u.period_month == month

abbrev pub find_usage : ℕ → ℕ → Tables → Option SmsUsage
find_usage chama_id month s = find (is_usage chama_id month) s.usage

abbrev pub count_of : Option SmsUsage → ℕ
count_of none = 0
count_of (some u) = u.used_count

-- `COALESCE((SELECT used_count …), 0)`
abbrev pub used_count : ℕ → ℕ → Tables → ℕ
used_count chama_id month s = count_of (find_usage chama_id month s)

pub record QuotaStatus : Type 0 where
  pub limit : Option ℕ
  pub used : ℕ
  pub remaining : Option ℕ
  pub configured : Bool

abbrev pub status_of : Option ℕ → ℕ → QuotaStatus
status_of none used = record { limit = none; used = used; remaining = none; configured = false }
status_of (some limit) used = record {
  limit = some limit;
  used = used;
  remaining = some (limit - used);
  configured = true;
}

pub record Reservation : Type 0 where
  pub allowed : Bool
  pub reserved : Bool
  pub period_month : ℕ
  pub limit : Option ℕ
  pub used : Option ℕ

abbrev pub set_usage : ℕ → ℕ → (ℕ → ℕ) → Tables → Tables
set_usage chama_id month f s = record s {
  usage =
      update_where (is_usage chama_id month) (λ u. record u { used_count = f u.used_count })
        s.usage;
}

-- `DO UPDATE … WHERE used_count < limit`
abbrev pub bump_usage : ℕ → ℕ → ℕ → Tables → Tables
bump_usage chama_id month limit s = record s {
  usage =
      update_where (λ u. is_usage chama_id month u && ltb u.used_count limit)
        (λ u. record u { used_count = u.used_count + 1 }) s.usage;
}

abbrev pub insert_usage : ℕ → ℕ → Tables → Tables
insert_usage chama_id month s = record s {
  usage = s.usage ++ (record { chama_id = chama_id; period_month = month; used_count = 1 }) ∷ [];
}

-- `INSERT … ON CONFLICT DO UPDATE … WHERE used_count < limit RETURNING used_count`, and the answer.
abbrev pub take_slot : Option SmsUsage → ℕ → ℕ → ℕ → Tables → Reservation × Tables
take_slot none chama_id month limit s = (
  record {
    allowed = true;
    reserved = true;
    period_month = month;
    limit = some limit;
    used = some 1;
  },
  insert_usage chama_id month s,
)
take_slot (some u) chama_id month limit s =
    if ltb u.used_count limit
    then (
      (record {
        allowed = true;
        reserved = true;
        period_month = month;
        limit = some limit;
        used = some (u.used_count + 1);
      }),
      bump_usage chama_id month limit s,
    )
    else (
      (record {
        allowed = false;
        reserved = false;
        period_month = month;
        limit = some limit;
        used = some u.used_count;
      }),
      s,
    )

abbrev pub reserve_within : Option ℕ → ℕ → ℕ → Tables → Reservation × Tables
reserve_within none chama_id month s = (
  record { allowed = true; reserved = false; period_month = month; limit = none; used = none },
  s,
)
reserve_within (some zero) chama_id month s = (
  record { allowed = false; reserved = false; period_month = month; limit = some 0; used = some 0 },
  s,
)
reserve_within (some (suc limit)) chama_id month s =
    take_slot (find_usage chama_id month s) chama_id month (suc limit) s

-- `month_of` is `date_trunc('month', now AT TIME ZONE tz)` of the database.
module _ (month_of : ℕ → ℕ) where
  unfoldable pub get_sms_quota_status : ℕ → ℕ → Tables → Outcome Failure QuotaStatus
  unfolding resolve_subscription_entitlements
  get_sms_quota_status chama_id now s = do
    access ← resolve_subscription_entitlements chama_id now s
    ok (status_of access.plan.sms_quota_monthly (used_count chama_id (month_of now) s))

  unfoldable pub reserve_sms_quota_slot : ℕ → ℕ → Tables → Outcome Failure (Reservation × Tables)
  unfolding resolve_subscription_entitlements
  reserve_sms_quota_slot chama_id now s = do
    access ← resolve_subscription_entitlements chama_id now s
    ok (reserve_within access.plan.sms_quota_monthly chama_id (month_of now) s)

unfoldable pub release_sms_quota_slot : ℕ → ℕ → Tables → Tables
release_sms_quota_slot chama_id period_month = set_usage chama_id period_month (λ n. n - 1)
