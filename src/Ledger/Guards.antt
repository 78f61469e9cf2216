-- ===== src/Ledger/Guards.antt =====
-- What the database's triggers see of a posted operation (migrations/001_initial_schema.sql), and
-- the exact effect of a transfer.
use mduara_api.Prelude.{
  ◌<◌, ℕ, ◌+◌, ◌-◌, ◌≡◌, ◌≢◌, refl, ◌⊎◌, inl, inr, true, some, [], ◌∷◌, ◌++◌, arith, leb, ◌==◌,
  if◌then◌else◌, Bool-cases,
}
use mduara_api.Prelude.Int.{ℤ, pos}
use mduara_api.Prelude.Outcome.{ok, >>=-eq-ok, refuse}
use mduara_api.Ledger.Types.{
  Entry, Transaction, Ledger, OperationResult, BaseOperation, PreparedOperation, same_chama,
}
use mduara_api.Ledger.Operations.{
  journal_of, execute, post, payout_operation, deposit_operation, transfer_operation,
  assert_positive_amount, record_transfer,
}
use mduara_api.Ledger.Triggers.{is_debit, is_balanced, allows_update, pooled}
use mduara_api.Ledger.Posted.{post-deposit, post-payout, post-transfer}
use mduara_api.Ledger.Reconciled.{pooled-set_pooled_amount, pooled-find, moved_twice, execute-cases}
use mduara_api.Ledger.Calls.{Call, deposit, payout, member_payout, loan_disbursement, transfer, run}

-- Nothing is written; or one journal is, which is balanced, and under which every change of a
-- pooled amount is allowed.
abbrev pub IsAccepted : Ledger → Ledger → Type 0
IsAccepted s s' =
    (s' ≡ s)
    ⊎ ((t : Transaction) × (s'.transactions ≡ s.transactions ++ t ∷ [])
        × (is_balanced t ≡ true)
        × ((i q p : ℕ)
            → pooled i s.chamas ≡ some q
            → pooled i s'.chamas ≡ some p
            → allows_update t i q p ≡ true))

module _ (base : BaseOperation) (k n : ℕ) (s : Ledger) {r : OperationResult} {s' : Ledger} where
  post-deposit-IsAccepted : post (deposit_operation base k n) s ≡ ok (r, s') → IsAccepted s s'
  post-deposit-IsAccepted h =
      let (c, e, chamas, journals) = post-deposit base k n s h in
      inr (
        journal_of s.next_id (deposit_operation base k n),
        journals,
        ground arith,
        λ i q p hq hp.
            let (q', hq', pq) =
              pooled-set_pooled_amount i k (c.pooled_amount + n) s.chamas {p = p}
                (rw chamas at hp) in
            ground (arith, pq, hq, hq', pooled-find k s.chamas {q = q} e),
      )

  post-payout-IsAccepted :
      (entry : Entry)
      → is_debit entry.side ≡ true
      → entry.amount ≡ n
      → post (payout_operation base k entry n) s ≡ ok (r, s')
      → IsAccepted s s'
  post-payout-IsAccepted entry d m h =
      let (c, e, enough, chamas, journals) = post-payout base k n s entry h in
      inr (
        journal_of s.next_id (payout_operation base k entry n),
        journals,
        ground arith,
        λ i q p hq hp.
            let (q', hq', pq) =
              pooled-set_pooled_amount i k (c.pooled_amount - n) s.chamas {p = p}
                (rw chamas at hp) in
            ground (arith, pq, hq, hq', enough, pooled-find k s.chamas {q = q} e),
      )

-- What a posted transfer leaves in each treasury.
post-transfer_pooled :
    (base : BaseOperation) (j k n : ℕ) (s : Ledger) {r : OperationResult} {s' : Ledger}
    → j ≢ k
    → post (transfer_operation base j k n) s ≡ ok (r, s')
    → (i q p : ℕ) → pooled i s.chamas ≡ some q
    → pooled i s'.chamas ≡ some p
    → (if i == j then p + n else p) ≡ (if i == k then q + n else q)
post-transfer_pooled base j k n s {s' = s'} ne h i q p hq hp =
    let (c, d, ec, ed, enough, chamas, journals) = post-transfer base j k n s ne h in
    elim (Bool-cases (leb j k)) [
      | inl le ↦
          let (q', hq', pq) =
            moved_twice i k j (d.pooled_amount + n) (c.pooled_amount - n) s.chamas {p = p}
              (rw (chamas, le) at hp) in
          ground (
            arith,
            pq,
            hq,
            hq',
            enough,
            ne,
            pooled-find j s.chamas {q = q} ec,
            pooled-find k s.chamas {q = q} ed,
          )
      | inr gt ↦
          let (q', hq', pq) =
            moved_twice i j k (c.pooled_amount - n) (d.pooled_amount + n) s.chamas {p = p}
              (rw (chamas, gt) at hp) in
          ground (
            arith,
            pq,
            hq,
            hq',
            enough,
            ne,
            pooled-find j s.chamas {q = q} ec,
            pooled-find k s.chamas {q = q} ed,
          )
    ]

post-transfer-IsAccepted :
    (base : BaseOperation) (j k n : ℕ) (s : Ledger) {r : OperationResult} {s' : Ledger}
    → j ≢ k
    → post (transfer_operation base j k n) s ≡ ok (r, s')
    → IsAccepted s s'
post-transfer-IsAccepted base j k n s ne h =
    let (c, d, ec, ed, enough, chamas, journals) = post-transfer base j k n s ne h in
    inr (
      journal_of s.next_id (transfer_operation base j k n),
      journals,
      ground arith,
      λ i q p hq hp. ground (arith, ne, post-transfer_pooled base j k n s ne h i q p hq hp),
    )

execute-IsAccepted :
    (op : PreparedOperation) (s : Ledger) {r : OperationResult} {s' : Ledger}
    → (post op s ≡ ok (r, s') → IsAccepted s s')
    → execute op s ≡ ok (r, s')
    → IsAccepted s s'
execute-IsAccepted op s posted h = elim (execute-cases op s h) [
  | inl same ↦ inl same
  | inr p ↦ posted p
]

-- No call that succeeds is refused by the triggers: it writes nothing, or one balanced journal
-- that has a matching treasury entry for every pooled amount that it changes.
pub run-IsAccepted :
    (c : Call) (s : Ledger) {r : OperationResult} {s' : Ledger}
    → run c s ≡ ok (r, s')
    → IsAccepted s s'
unfolding run
run-IsAccepted (deposit base i a) s h =
    let (n, e, x) = >>=-eq-ok (assert_positive_amount a) _ h in
    execute-IsAccepted _ s (post-deposit-IsAccepted base i n s) x
run-IsAccepted (payout base i a) s h =
    let (n, e, x) = >>=-eq-ok (assert_positive_amount a) _ h in
    execute-IsAccepted _ s (post-payout-IsAccepted base i n s _ refl refl) x
run-IsAccepted (member_payout base i m a) s h =
    let (n, e, x) = >>=-eq-ok (assert_positive_amount a) _ h in
    execute-IsAccepted _ s (post-payout-IsAccepted base i n s _ refl refl) x
run-IsAccepted (loan_disbursement base i m a) s h =
    let (n, e, x) = >>=-eq-ok (assert_positive_amount a) _ h in
    execute-IsAccepted _ s (post-payout-IsAccepted base i n s _ refl refl) x
run-IsAccepted (transfer base i j a) s h =
    let (n, e, x) = >>=-eq-ok (assert_positive_amount a) _ h in
    let (u, ne, y) = >>=-eq-ok (refuse (i == j) same_chama) _ x in
    execute-IsAccepted _ s (post-transfer-IsAccepted base i j n s (ground (arith, ne))) y

-- A transfer that succeeds is of a positive amount between two different chamas. It has changed
-- nothing, or has moved the amount from the one treasury to the other and left every other treasury
-- as it was.
pub record_transfer_moves :
    (base : BaseOperation) (j k : ℕ) (a : ℤ) (s : Ledger) (i q p : ℕ) {r : OperationResult}
    {s' : Ledger}
    → record_transfer base j k a s ≡ ok (r, s')
    → pooled i s.chamas ≡ some q
    → pooled i s'.chamas ≡ some p
    → (n : ℕ) × (0 < n)
      × (a ≡ pos n)
      × (j ≢ k)
      × ((s' ≡ s) ⊎ ((if i == j then p + n else p) ≡ (if i == k then q + n else q)))
unfolding record_transfer
record_transfer_moves base j k a s i q p h hq hp =
    let (n, e, x) = >>=-eq-ok (assert_positive_amount a) _ h in
    let (u, ne, y) = >>=-eq-ok (refuse (j == k) same_chama) _ x in
    let differ : j ≢ k = ground (arith, ne) in
    (
      n,
      ground (arith, e),
      ground (arith, e),
      differ,
      elim (execute-cases _ s y) [
        | inl same ↦ inl same
        | inr posted ↦ inr (post-transfer_pooled base j k n s differ posted i q p hq hp)
      ],
    )
