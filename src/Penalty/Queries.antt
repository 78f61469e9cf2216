-- ===== src/Penalty/Queries.antt =====
-- The queries of `assessContribution` (jobs/penalties.ts). The midnight of a day in the worker's
-- timezone is an argument, as PostgreSQL computes it.
use mduara_api.Prelude.{
  ℕ, ◌+◌, Bool, true, false, not, ◌&&◌, ◌||◌, Option, none, some, List, [], ◌∷◌, map, any, ltb, leb,
  ◌==◌, if◌then◌else◌,
}
use mduara_api.Prelude.Text.{Text, text_eq, trim}
use mduara_api.Commitment.Types.{is_active}
use mduara_api.Commitment.Service.{lower_code}
use mduara_api.Penalty.Types.{
  ContributionStatus, waived, Contribution, ContributionRule, Acceptance, Tables,
}

abbrev later_one {ℓ} : {A : Type ℓ} → (A → A → Bool) → A → Option A → A
later_one later x none = x
later_one later x (some y) = if later y x then y else x

-- `WHERE … ORDER BY … DESC LIMIT 1`: the row that passes and that no other one is later than.
abbrev pub latest {ℓ} : {A : Type ℓ} → (A → Bool) → (A → A → Bool) → List A → Option A
latest p later [] = none
latest p later (x ∷ xs) =
    let rest = latest p later xs in if p x then some (later_one later x rest) else rest

abbrev pub lexicographic : ℕ → ℕ → Bool → Bool
lexicographic a b rest = ltb b a || a == b && rest

abbrev pub until : Option ℕ → ℕ → Bool
until none day = true
until (some end) day = leb day end

abbrev pub rule_of : Contribution → List ContributionRule → Option ContributionRule
rule_of c =
    latest
      (λ r.
        r.chama_id == c.chama_id
        && leb r.effective_from c.due_date
        && until r.effective_to c.due_date)
      (λ r q. lexicographic r.effective_from q.effective_from (ltb q.id r.id))

abbrev pub constitution_of : Contribution → List Acceptance → Option Acceptance
constitution_of c =
    latest (λ a. a.membership_id == c.member_id && a.chama_id == c.chama_id)
      (λ a b. lexicographic a.accepted_at b.accepted_at (ltb b.version a.version))

abbrev pub grace : Option ContributionRule → ℕ
grace none = 0
grace (some r) = r.grace_period_days

-- `Math.max(1, Number(misses || 3))`, of a column that is 3 by default.
abbrev pub default_threshold : Option Acceptance → ℕ
default_threshold none = 3
default_threshold (some a) =
    if a.default_after_consecutive_misses == 0 then 3 else a.default_after_consecutive_misses

abbrev pub is_unchecked : Contribution → Bool
is_unchecked c = elim c.penalty_checked_at [ none ↦ true | some t ↦ false ]

abbrev pub is_waived : ContributionStatus → Bool
is_waived waived = true
is_waived _ = false

-- The contribution, if it is due for an assessment.
abbrev pub is_due : (ℕ → ℕ) → ℕ → Tables → Contribution → Bool
is_due midnight now s c =
    is_unchecked c
    && not (is_waived c.status)
    && any (λ g. g.id == c.chama_id && g.is_active) s.groups
    && any (λ m. m.id == c.member_id && m.chama_id == c.chama_id && is_active m.status)
        s.memberships
    && leb (midnight (c.due_date + 1 + grace (rule_of c s.rules))) now

-- `hasCleanReconciliation`
unfoldable pub has_clean_reconciliation : Text → ℕ → ℕ → Tables → Bool
has_clean_reconciliation provider window_start window_end s =
    any
      (λ r.
        text_eq (map lower_code r.provider) (map lower_code (trim provider))
        && r.is_completed
        && r.mismatch_count == 0
        && leb r.window_start window_start
        && leb window_end r.window_end)
      s.runs

-- `nextConsecutiveMissCount`: one more than at the contribution assessed before this one.
abbrev pub earlier : Contribution → Contribution → Bool
earlier a b =
    lexicographic b.due_date a.due_date (lexicographic b.created_at a.created_at (ltb a.id b.id))

abbrev pub misses_of : Option Contribution → ℕ
misses_of none = 0
misses_of (some c) = c.consecutive_miss_count

abbrev pub next_consecutive_miss_count : Contribution → List Contribution → ℕ
next_consecutive_miss_count c cs =
    misses_of (
      latest (λ b. b.member_id == c.member_id && not (is_unchecked b) && earlier b c)
        (λ a b. earlier b a) cs)
    + 1
