-- ===== src/Trust/Score.antt =====
-- `refreshMembershipScore` (services/trust-score.service.ts).
use mduara_api.Prelude.{
  ℕ, ◌≡◌, inl, inr, Option-cases, arith, zero, suc, ◌+◌, ◌-◌, ◌*◌, ◌/◌, ◌^◌, Bool, true, false, not,
  ◌&&◌, Option, none, some, List, [], ◌∷◌, ◌++◌, find, any, ltb, leb, ◌==◌, if◌then◌else◌,
}
use mduara_api.Prelude.Text.{Text, text_eq, codes}
use mduara_api.Poll.Double.{Double, double_of, reaches}
use mduara_api.Trust.Types.{
  ContributionStatus, paid, PaymentStatus, confirmed, MemberStatus, defaulted, Contribution,
  ContributionPayment, Member, SubjectType, member, Level, highly_committed, building,
  needs_attention, Factor, on_time, timeliness, no_misses, missed_contributions, Inputs, Snapshot,
  Records,
}

abbrev pub is_paid : ContributionStatus → Bool
is_paid paid = true
is_paid _ = false

abbrev pub is_confirmed : PaymentStatus → Bool
is_confirmed confirmed = true
is_confirmed _ = false

abbrev pub is_defaulted : MemberStatus → Bool
is_defaulted defaulted = true
is_defaulted _ = false

abbrev pub is_given : Option ℕ → Bool
is_given none = false
is_given (some time) = true

-- `LEFT JOIN contribution_payments cp ON … AND cp.status = 'confirmed'`: the number of rows that a
-- contribution has in the join.
abbrev pub confirmed_rows : ℕ → List ContributionPayment → ℕ
confirmed_rows contribution_id [] = 0
confirmed_rows contribution_id (p ∷ payments) =
    (if p.contribution_id == contribution_id && is_confirmed p.status then 1 else 0)
    + confirmed_rows contribution_id payments

abbrev pub joined_rows : ℕ → ℕ
joined_rows zero = 1
joined_rows (suc n) = suc n

abbrev pub is_of : Member → Contribution → Bool
is_of m c = c.member_id == m.id && c.chama_id == m.chama_id

-- `COUNT(c.id) FILTER (WHERE p)`: a contribution counts once for each of its rows in the join.
abbrev pub count_joined :
    Member → (Contribution → Bool) → List ContributionPayment → List Contribution → ℕ
count_joined m p payments [] = 0
count_joined m p payments (c ∷ contributions) =
    (if is_of m c && p c then joined_rows (confirmed_rows c.id payments) else 0)
    + count_joined m p payments contributions

abbrev pub later : ℕ → Option ℕ → Option ℕ
later time none = some time
later time (some other) = if ltb time other then some other else some time

-- `MAX(cp.paid_at)`
abbrev pub latest_payment : Member → List Contribution → List ContributionPayment → Option ℕ
latest_payment m contributions [] = none
latest_payment m contributions (p ∷ payments) =
    let rest = latest_payment m contributions payments in
    if is_confirmed p.status && any (λ c. is_of m c && c.id == p.contribution_id) contributions
    then later p.paid_at rest
    else rest

abbrev pub is_due_by : ℕ → Contribution → Bool
is_due_by today c = leb c.due_date today

abbrev pub inputs_of : ℕ → Member → Records → Inputs
inputs_of today m s = record {
  due_count = count_joined m (is_due_by today) s.payments s.contributions;
  on_time_count =
      count_joined m (λ c. is_due_by today c && is_paid c.status && not (is_given c.missed_at))
        s.payments s.contributions;
  missed_count =
      count_joined m (λ c. is_due_by today c && is_given c.missed_at) s.payments s.contributions;
  status = m.status;
  latest_payment_at = latest_payment m s.contributions s.payments;
}

-- `a + b`, on doubles.
unfoldable pub add : Double → Double → Double
unfolding double_of
add a b =
    double_of (a.mantissa * 2 ^ b.shift + b.mantissa * 2 ^ a.shift) (2 ^ a.shift * 2 ^ b.shift)

abbrev pub whole : ℕ → Double
whole n = record { mantissa = n; shift = 0 }

-- `Math.min(100, x)`
abbrev pub at_most_100 : Double → Double
unfolding reaches
at_most_100 x = if reaches x (whole 100) then whole 100 else x

-- `Math.round`: the integral part of x + 1/2.
abbrev pub round_half_up : Double → ℕ
round_half_up x = (2 * x.mantissa + 2 ^ x.shift) / (2 * 2 ^ x.shift)

-- The score where contributions were due; it is never below 20, so `Math.max(0, …)` has no effect.
unfoldable pub due_score : ℕ → ℕ → ℕ → ℕ
unfolding add double_of reaches
due_score due on_time_ missed = round_half_up (
    at_most_100
      (add (add (whole 20) (double_of (60 * on_time_) due)) (double_of (20 * (due - missed)) due)))

unfoldable pub score_of : Inputs → ℕ
unfolding due_score
score_of i =
    if is_defaulted i.status
    then 0
    else if i.due_count == 0
    then 50
    else due_score i.due_count i.on_time_count i.missed_count

abbrev pub level_of : ℕ → Level
level_of score =
    if leb 80 score then highly_committed else if leb 50 score then building else needs_attention

abbrev pub factors_of : Inputs → List Factor
factors_of i =
    (if i.on_time_count == i.due_count && ltb 0 i.due_count then on_time else timeliness)
    ∷ (if i.missed_count == 0 then no_misses else missed_contributions)
    ∷ []

abbrev pub is_member_type : SubjectType → Bool
is_member_type member = true
is_member_type _ = false

-- `getActiveFormulaForUpdate(client, 'member-v1', 'member')`
abbrev pub has_formula : Records → Bool
has_formula s =
    any (λ f. text_eq f.id (codes "member-v1") && is_member_type f.subject_type && f.is_active)
      s.formulas

-- The key of a calculation is `member-v1:<membership>:<SHA-256 of the inputs>`; hashing is an argument.
module _ (key_of : ℕ → Inputs → Text) where
  abbrev pub snapshot_of : Member → Inputs → Snapshot
  snapshot_of m i = record {
    formula_id = codes "member-v1";
    chama_id = m.chama_id;
    member_id = m.id;
    score = score_of i;
    level = level_of (score_of i);
    factors = factors_of i;
    calculation_key = key_of m.id i;
  }

  -- `ON CONFLICT (calculation_key) DO NOTHING`
  abbrev pub insert_snapshot : Snapshot → Records → Records
  insert_snapshot snapshot s = record s {
    snapshots =
        if any (λ x. text_eq x.calculation_key snapshot.calculation_key) s.snapshots
        then s.snapshots
        else s.snapshots ++ snapshot ∷ [];
  }

  -- `none` is the error that the membership was not found.
  unfoldable pub refresh_membership_score : ℕ → ℕ → Records → Option Records
  unfolding score_of
  refresh_membership_score today member_id s =
      if not (has_formula s) then some s else elim (find (λ m. m.id == member_id) s.members) [
        | none ↦ none
        | some m ↦ some (insert_snapshot (snapshot_of m (inputs_of today m s)) s)
      ]

  pub refresh-contributions :
      (today member_id : ℕ) (s s' : Records)
      → refresh_membership_score today member_id s ≡ some s'
      → s'.contributions ≡ s.contributions
  unfolding refresh_membership_score
  refresh-contributions today member_id s s' h =
      elim (Option-cases (find (λ m. m.id == member_id) s.members)) [
        | inl nobody ↦ ground (arith, nobody, h)
        | inr (m, e) ↦ ground (arith, e, h)
      ]

  pub refresh-payments :
      (today member_id : ℕ) (s s' : Records)
      → refresh_membership_score today member_id s ≡ some s'
      → s'.payments ≡ s.payments
  unfolding refresh_membership_score
  refresh-payments today member_id s s' h =
      elim (Option-cases (find (λ m. m.id == member_id) s.members)) [
        | inl nobody ↦ ground (arith, nobody, h)
        | inr (m, e) ↦ ground (arith, e, h)
      ]
