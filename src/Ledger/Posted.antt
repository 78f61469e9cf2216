-- ===== src/Ledger/Posted.antt =====
-- What a posted operation has done, by inversion of `post` (shared/business-logic.ts): one lemma
-- for a payment in or out of one treasury, one for a transfer.
use mduara_api.Prelude.{
  ℕ, ◌+◌, ◌-◌, ◌≤◌, ◌≡◌, ◌≢◌, some, [], ◌∷◌, ◌++◌, arith, find, leb, ◌==◌, if◌then◌else◌,
  Option-cases, inl, inr, find-true,
}
use mduara_api.Prelude.Outcome.{ok}
use mduara_api.Ledger.Types.{Entry, Chama, Ledger, OperationResult, BaseOperation}
use mduara_api.Ledger.Operations.{
  set_pooled_amount, journal_of, post, payout_operation, deposit_operation, transfer_operation,
}

module _ (base : BaseOperation) (i : ℕ) (n : ℕ) (s : Ledger) where
  pub post-deposit :
      {r : OperationResult} {s' : Ledger}
      → post (deposit_operation base i n) s ≡ ok (r, s')
      → (c : Chama) × (find (λ x. x.id == i) s.chamas ≡ some c)
        × (s'.chamas ≡ set_pooled_amount i (c.pooled_amount + n) s.chamas)
        × (s'.transactions
            ≡ s.transactions ++ journal_of s.next_id (deposit_operation base i n) ∷ [])
  unfolding post
  post-deposit h = elim (Option-cases (find (λ x. x.id == i) s.chamas)) [
    | inl e ↦ ground (arith, e)
    | inr (c, e) ↦ (
      c,
      e,
      ground (arith, find-true (λ x. x.id == i) s.chamas e),
      ground (arith, find-true (λ x. x.id == i) s.chamas e),
    )
  ]

  pub post-payout :
      (entry : Entry) {r : OperationResult} {s' : Ledger}
      → post (payout_operation base i entry n) s ≡ ok (r, s')
      → (c : Chama) × (find (λ x. x.id == i) s.chamas ≡ some c)
        × (n ≤ c.pooled_amount)
        × (s'.chamas ≡ set_pooled_amount i (c.pooled_amount - n) s.chamas)
        × (s'.transactions
            ≡ s.transactions ++ journal_of s.next_id (payout_operation base i entry n) ∷ [])
  unfolding post
  post-payout entry h = elim (Option-cases (find (λ x. x.id == i) s.chamas)) [
    | inl e ↦ ground (arith, e)
    | inr (c, e) ↦ (
      c,
      e,
      ground (arith, find-true (λ x. x.id == i) s.chamas e),
      ground (arith, find-true (λ x. x.id == i) s.chamas e),
      ground (arith, find-true (λ x. x.id == i) s.chamas e),
    )
  ]

-- The amount leaves one treasury, which holds it, and reaches the other.
pub post-transfer :
    (base : BaseOperation) (i j n : ℕ) (s : Ledger) {r : OperationResult} {s' : Ledger}
    → i ≢ j
    → post (transfer_operation base i j n) s ≡ ok (r, s')
    → (c d : Chama) × (find (λ x. x.id == i) s.chamas ≡ some c)
      × (find (λ x. x.id == j) s.chamas ≡ some d)
      × (n ≤ c.pooled_amount)
      × (s'.chamas ≡ (
          if leb i j
          then set_pooled_amount j
              (d.pooled_amount + n)
              (set_pooled_amount i (c.pooled_amount - n) s.chamas)
          else set_pooled_amount i
              (c.pooled_amount - n)
              (set_pooled_amount j (d.pooled_amount + n) s.chamas)))
      × (s'.transactions
          ≡ s.transactions ++ journal_of s.next_id (transfer_operation base i j n) ∷ [])
unfolding post
post-transfer base i j n s ne h = elim (Option-cases (find (λ x. x.id == i) s.chamas)) [
  | inl e ↦ absurd (ground (arith, e))
  | inr (c, e) ↦ elim (Option-cases (find (λ x. x.id == j) s.chamas)) [
    | inl e' ↦ absurd (ground (arith, e, e'))
    | inr (d, e') ↦
        let ci = find-true (λ x. x.id == i) s.chamas e in
        let dj = find-true (λ x. x.id == j) s.chamas e' in
        (c, d, e, e', ground (arith, ci, dj), ground (arith, ci, dj), ground (arith, ci, dj))
  ]
]
