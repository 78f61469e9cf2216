-- ===== src/Penalty/Effects.antt =====
-- What an assessment of a contribution does (`assessContribution`, jobs/penalties.ts).
use mduara_api.Prelude.{
  ℕ, ◌≡◌, ◌⊎◌, refl, Bool, true, false, ◌&&◌, Option, none, some, List, [], ◌∷◌, ◌++◌, arith, inl,
  inr, find, update_where, ltb, ◌==◌, Bool-cases, Option-cases, find-true,
}
use mduara_api.Prelude.Text.{Text}
use mduara_api.Prelude.Outcome.{ok, Outcome-cases}
use mduara_api.Ledger.Types.{Ledger}
use mduara_api.Ledger.Journals.{record_member_charge}
use mduara_api.Ledger.Charges.{record_member_charge-IsReconciled}
use mduara_api.Ledger.Reconciled.{IsReconciled}
use mduara_api.Penalty.Types.{Contribution, Tables}
use mduara_api.Penalty.Queries.{rule_of, is_due, has_clean_reconciliation}
use mduara_api.Penalty.Assessment.{
  charge, charge_of, fee_for, assess_due, assess_found, due_contribution, assess_contribution,
  deadline_of, unpaid_at_deadline, checked_row, misses_now, escalate, apply_miss_escalation,
  check_contribution,
}

abbrev charged : Contribution → ℕ → ℕ → Ledger → Tables → Tables
charged c fee i l s = record s {
  ledger = l;
  penalties =
      s.penalties
      ++ record {
        contribution_id = c.id;
        member_id = c.member_id;
        amount = fee;
        ledger_transaction_id = i;
      }
        ∷ [];
}

charge-inv :
    (c : Contribution) (fee : ℕ) (s : Tables) {t : Tables}
    → charge c fee s ≡ ok t
    → ((fee == 0) ≡ true) × (t ≡ s)
      ⊎ ((fee == 0) ≡ false)
        × ((i : ℕ) × (l : Ledger) × (record_member_charge (charge_of c fee s) s.ledger ≡ ok (i, l))
            × (t ≡ charged c fee i l s))
unfolding charge
charge-inv c fee s h = elim (Bool-cases (fee == 0)) [
  | inl free ↦ inl (free, ground (arith, free, h))
  | inr owed ↦ elim (Outcome-cases (record_member_charge (charge_of c fee s) s.ledger)) [
    | inl (e, x) ↦ ground (arith, owed, x, h)
    | inr ((i, l), x) ↦ inr (owed, (i, l, x, ground (arith, owed, x, h)))
  ]
]

escalate-keeps :
    (c : Contribution) (unpaid misses : ℕ) (t : Tables)
    → ((escalate c unpaid misses t).contributions ≡ t.contributions)
      × ((escalate c unpaid misses t).ledger ≡ t.ledger)
      × ((escalate c unpaid misses t).penalties ≡ t.penalties)
unfolding apply_miss_escalation
escalate-keeps c unpaid misses t = (ground arith, ground arith, ground arith)

-- The contribution of an assessment that does something, its fee, and what is written.
assess_due-inv :
    (midnight : ℕ → ℕ) (now : ℕ) (c : Contribution) (s : Tables) {b : Bool} {s' : Tables}
    → assess_due midnight now c s ≡ ok (b, s')
    → (fee : ℕ) × (t : Tables) × (fee_for (rule_of c s.rules) (unpaid_at_deadline midnight s c)
        ≡ some fee)
      × (charge c fee s ≡ ok t)
      × (b ≡ ltb 0 fee)
      × (s'.contributions ≡ (check_contribution midnight now c s t).contributions)
      × (s'.ledger ≡ t.ledger)
      × (s'.penalties ≡ t.penalties)
unfolding assess_due
assess_due-inv midnight now c s h =
    elim (Option-cases (fee_for (rule_of c s.rules) (unpaid_at_deadline midnight s c))) [
      | inl e ↦ ground (arith, e, h)
      | inr (fee, e) ↦ elim (Outcome-cases (charge c fee s)) [
        | inl (x, q) ↦ ground (arith, e, q, h)
        | inr (t, q) ↦
            let (cs, l, ps) =
              escalate-keeps c (unpaid_at_deadline midnight s c)
                (misses_now (unpaid_at_deadline midnight s c) c s)
                (check_contribution midnight now c s t) in
            (
              fee,
              t,
              e,
              q,
              ground (arith, e, q, h),
              ground (arith, e, q, h, cs),
              ground (arith, e, q, h, l),
              ground (arith, e, q, h, ps),
            )
      ]
    ]

-- A contribution that was checked is not due, whatever the time.
find-checked :
    (midnight : ℕ → ℕ) (now deadline unpaid total misses later id k : ℕ) (s : Tables)
    (cs : List Contribution)
    → k ≡ id
    → find
        (λ c. c.id == id && is_due midnight later s c)
        (update_where (λ b. b.id == k) (checked_row now deadline unpaid total misses) cs)
      ≡ none
find-checked midnight now deadline unpaid total misses later id k s [] e = refl
find-checked midnight now deadline unpaid total misses later id k s (c ∷ cs) e =
    ground (arith, e, find-checked midnight now deadline unpaid total misses later id k s cs e)

-- An assessment with an effect: the contribution was due, and its window has a clean reconciliation.
assess_found-cases :
    (midnight : ℕ → ℕ) (provider : Text) (now : ℕ) (s : Tables) (o : Option Contribution) {b : Bool}
    {s' : Tables}
    → assess_found midnight provider now s o ≡ ok (b, s')
    → ((b ≡ false) × (s' ≡ s))
      ⊎ ((c : Contribution) × (o ≡ some c)
          × (has_clean_reconciliation provider (midnight c.due_date) (deadline_of midnight s c) s
              ≡ true)
          × (assess_due midnight now c s ≡ ok (b, s')))
unfolding assess_found
assess_found-cases midnight provider now s none h = inl (ground arith, ground arith)
assess_found-cases midnight provider now s (some c) h =
    elim (Bool-cases
      (has_clean_reconciliation provider (midnight c.due_date) (deadline_of midnight s c) s)) [
        | inl clean ↦ inr (c, refl, clean, ground (arith, clean, h))
        | inr dirty ↦ inl (ground (arith, dirty, h), ground (arith, dirty, h))
      ]

assess_contribution-cases :
    (midnight : ℕ → ℕ) (provider : Text) (id now : ℕ) (s : Tables) {b : Bool} {s' : Tables}
    → assess_contribution midnight provider id now s ≡ ok (b, s')
    → ((b ≡ false) × (s' ≡ s))
      ⊎ ((c : Contribution) × (due_contribution midnight id now s ≡ some c)
          × (has_clean_reconciliation provider (midnight c.due_date) (deadline_of midnight s c) s
              ≡ true)
          × (assess_due midnight now c s ≡ ok (b, s')))
unfolding assess_contribution
assess_contribution-cases midnight provider id now s h =
    assess_found-cases midnight provider now s (due_contribution midnight id now s) h

assess_again :
    (midnight : ℕ → ℕ) (provider : Text) (id now : ℕ) (s : Tables)
    → due_contribution midnight id now s ≡ none
    → assess_contribution midnight provider id now s ≡ ok (false, s)
unfolding assess_contribution
assess_again midnight provider id now s h = rw h refl

-- A penalty is charged only for a contribution that was due and whose whole window a clean
-- reconciliation covers. Its amount is the rule's fee on what was unpaid at the deadline, and it
-- is recorded once; assessed again on the tables that this leaves, at whatever time, the
-- contribution is not charged.
pub assess_contribution-charges :
    (midnight : ℕ → ℕ) (provider : Text) (id now later : ℕ) (s : Tables) {s' : Tables}
    → assess_contribution midnight provider id now s ≡ ok (true, s')
    → (c : Contribution) × (fee i : ℕ) × (due_contribution midnight id now s ≡ some c)
      × (has_clean_reconciliation provider (midnight c.due_date) (deadline_of midnight s c) s
          ≡ true)
      × (fee_for (rule_of c s.rules) (unpaid_at_deadline midnight s c) ≡ some fee)
      × (s'.penalties
          ≡ s.penalties
            ++ record {
              contribution_id = c.id;
              member_id = c.member_id;
              amount = fee;
              ledger_transaction_id = i;
            }
              ∷ [])
      × (assess_contribution midnight provider id later s' ≡ ok (false, s'))
assess_contribution-charges midnight provider id now later s {s'} h =
    elim (assess_contribution-cases midnight provider id now s h) [
      | inl (none_charged, same) ↦ cc
      | inr (c, due, clean, x) ↦
          let (fee, t, fee_eq, charge_eq, answer, cs, l, ps) = assess_due-inv midnight now c s x in
          elim (charge-inv c fee s charge_eq) [
            | inl (free, same) ↦ absurd (ground (arith, free, answer))
            | inr (owed, (i, led, recorded, t_eq)) ↦ (
              c,
              fee,
              i,
              due,
              clean,
              fee_eq,
              ground (arith, ps, t_eq),
              assess_again midnight provider id later s' (
                  rw (cs, t_eq)
                    (find-checked midnight now _ _ _ _ later id c.id s' s.contributions (
                      ground (
                        arith,
                        find-true (λ x. x.id == id && is_due midnight now s x) s.contributions due,
                      )))),
            )
          ]
    ]

-- An assessment that does not throw keeps a reconciled ledger reconciled and its journals balanced.
pub assess_contribution-IsReconciled :
    (midnight : ℕ → ℕ) (provider : Text) (id now : ℕ) (s : Tables) {b : Bool} {s' : Tables}
    → IsReconciled s.ledger
    → assess_contribution midnight provider id now s ≡ ok (b, s')
    → IsReconciled s'.ledger
assess_contribution-IsReconciled midnight provider id now s v h =
    elim (assess_contribution-cases midnight provider id now s h) [
      | inl (none_charged, same) ↦ rw same v
      | inr (c, due, clean, x) ↦
          let (fee, t, fee_eq, charge_eq, answer, cs, l, ps) = assess_due-inv midnight now c s x in
          elim (charge-inv c fee s charge_eq) [
            | inl (free, same) ↦ rw (l, same) v
            | inr (owed, (i, led, recorded, t_eq)) ↦
                let (n, above, amount_eq, new, chamas, kept) =
                  record_member_charge-IsReconciled (charge_of c fee s) s.ledger v recorded in
                rw (l, t_eq) kept
          ]
    ]
