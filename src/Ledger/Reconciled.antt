-- ===== src/Ledger/Reconciled.antt =====
-- The treasury of a chama is what its treasury entries say: the invariant of the ledger
-- (shared/business-logic.ts), and that every operation keeps it.
use mduara_api.Prelude.{
  ℕ, ◌+◌, ◌-◌, ◌≡◌, ◌≢◌, ◌⊎◌, true, false, some, List, [], ◌∷◌, ◌++◌, arith, find, leb, ◌==◌,
  if◌then◌else◌, Bool-cases, inl, inr,
}
use mduara_api.Prelude.Outcome.{ok}
use mduara_api.Ledger.Types.{
  Entry, Transaction, Chama, Ledger, OperationResult, BaseOperation, PreparedOperation,
}
use mduara_api.Ledger.Operations.{
  set_pooled_amount, journal_of, execute, find_existing_operation, post, payout_operation,
  deposit_operation, transfer_operation,
}
use mduara_api.Ledger.Triggers.{
  is_debit, is_credit, is_balanced, entry_total, ledger_total, journal_total-append, treasury_side,
  pooled, is_treasury,
}
use mduara_api.Ledger.Posted.{post-deposit, post-payout, post-transfer}

abbrev pub AllBalanced : List Transaction → Type 0
AllBalanced [] = Unit
AllBalanced (t ∷ ts) = (is_balanced t ≡ true) × AllBalanced ts

-- Each chama's pooled amount is its treasury debits less its treasury credits, and each journal
-- has at least two entries and debits equal to credits.
pub record IsReconciled (s : Ledger) : Type 0 where
  pub treasury :
      (i : ℕ) {p : ℕ}
      → pooled i s.chamas ≡ some p
      → p + ledger_total is_credit i s.transactions ≡ ledger_total is_debit i s.transactions
  pub balanced : AllBalanced s.transactions

pub AllBalanced-append :
    (ts : List Transaction) (t : Transaction)
    → AllBalanced ts
    → is_balanced t ≡ true
    → AllBalanced (ts ++ t ∷ [])
AllBalanced-append [] t h b = (b, tt)
AllBalanced-append (u ∷ ts) t h b = (h.0, AllBalanced-append ts t h.1 b)

pub pooled-set_pooled_amount :
    (i j b : ℕ) (chamas : List Chama) {p : ℕ}
    → pooled i (set_pooled_amount j b chamas) ≡ some p
    → (q : ℕ) × (pooled i chamas ≡ some q) × (p ≡ (if i == j then b else q))
pooled-set_pooled_amount i j b [] h = cc
pooled-set_pooled_amount i j b (c ∷ cs) {p} h = elim (Bool-cases (c.id == i)) [
  | inl e ↦ (c.pooled_amount, ground (arith, e), ground (arith, e))
  | inr e ↦
      let (q, hq, hp) = pooled-set_pooled_amount i j b cs {p = p} (ground (arith, e)) in
      (q, ground (arith, e, hq), hp)
]

pub pooled-find :
    (i : ℕ) (chamas : List Chama) {c : Chama} {q : ℕ}
    → find (λ x. x.id == i) chamas ≡ some c
    → pooled i chamas ≡ some q
    → q ≡ c.pooled_amount
pooled-find i chamas e h = ground arith

-- A balanced journal whose treasury entries are the changes of the pooled amounts.
pub IsReconciled-after :
    {s s' : Ledger} (t : Transaction)
    → IsReconciled s
    → s'.transactions ≡ s.transactions ++ t ∷ []
    → is_balanced t ≡ true
    → ((i p : ℕ)
        → pooled i s'.chamas ≡ some p
        → (q : ℕ) × (pooled i s.chamas ≡ some q)
          × (p + entry_total (treasury_side is_credit i) t.entries
              ≡ q + entry_total (treasury_side is_debit i) t.entries))
    → IsReconciled s'
IsReconciled-after {s} t v journals b moved = record {
  treasury = λ i {p} hp.
      let (q, hq, m) = moved i p hp in
      rw
        (
          journals,
          journal_total-append (treasury_side is_credit i) s.transactions (t ∷ []),
          journal_total-append (treasury_side is_debit i) s.transactions (t ∷ []),
        )
        (omega (arith, v.treasury i hq, m));
  balanced = rw journals (AllBalanced-append s.transactions t v.balanced b);
}

module _ (base : BaseOperation) (k n : ℕ) {r : OperationResult} {s s' : Ledger}
    (v : IsReconciled s) where
  pub post-deposit-IsReconciled : post (deposit_operation base k n) s ≡ ok (r, s') → IsReconciled s'
  post-deposit-IsReconciled h =
      let (c, e, chamas, journals) = post-deposit base k n s h in
      IsReconciled-after (journal_of s.next_id (deposit_operation base k n)) v journals
        (ground arith)
        λ i p hp.
          let (q, hq, pq) =
            pooled-set_pooled_amount i k (c.pooled_amount + n) s.chamas (rw chamas at hp) in
          (q, hq, ground (arith, pq, pooled-find k s.chamas {q = q} e))

  pub post-payout-IsReconciled :
      (entry : Entry)
      → is_treasury entry.account ≡ false
      → is_debit entry.side ≡ true
      → entry.amount ≡ n
      → post (payout_operation base k entry n) s ≡ ok (r, s')
      → IsReconciled s'
  post-payout-IsReconciled entry a b m h =
      let (c, e, enough, chamas, journals) = post-payout base k n s entry h in
      IsReconciled-after (journal_of s.next_id (payout_operation base k entry n)) v journals
        (ground arith)
        λ i p hp.
          let (q, hq, pq) =
            pooled-set_pooled_amount i k (c.pooled_amount - n) s.chamas (rw chamas at hp) in
          (q, hq, ground (arith, pq, enough, pooled-find k s.chamas {q = q} e))

-- Two treasuries written one after the other.
pub moved_twice :
    (i j k a b : ℕ) (chamas : List Chama) {p : ℕ}
    → pooled i (set_pooled_amount j a (set_pooled_amount k b chamas)) ≡ some p
    → (q : ℕ) × (pooled i chamas ≡ some q) × (p ≡ (if i == j then a else if i == k then b else q))
moved_twice i j k a b chamas h =
    let (m, hm, pm) = pooled-set_pooled_amount i j a (set_pooled_amount k b chamas) h in
    let (q, hq, pq) = pooled-set_pooled_amount i k b chamas hm in (q, hq, ground (arith, pm, pq))

pub post-transfer-IsReconciled :
    (base : BaseOperation) (j k n : ℕ) {r : OperationResult} {s s' : Ledger} (v : IsReconciled s)
    → j ≢ k
    → post (transfer_operation base j k n) s ≡ ok (r, s')
    → IsReconciled s'
post-transfer-IsReconciled base j k n {s = s} {s' = s'} v ne h =
    let (c, d, ec, ed, enough, chamas, journals) = post-transfer base j k n s ne h in
    IsReconciled-after (journal_of s.next_id (transfer_operation base j k n)) v journals
      (ground arith)
      λ i p hp. elim (Bool-cases (leb j k)) [
        | inl le ↦
            let (q, hq, pq) =
              moved_twice i k j (d.pooled_amount + n) (c.pooled_amount - n) s.chamas {p = p}
                (rw (chamas, le) at hp) in
            (
              q,
              hq,
              ground (
                arith,
                pq,
                enough,
                ne,
                pooled-find j s.chamas {q = q} ec,
                pooled-find k s.chamas {q = q} ed,
              ),
            )
        | inr gt ↦
            let (q, hq, pq) =
              moved_twice i j k (c.pooled_amount - n) (d.pooled_amount + n) s.chamas {p = p}
                (rw (chamas, gt) at hp) in
            (
              q,
              hq,
              ground (
                arith,
                pq,
                enough,
                ne,
                pooled-find j s.chamas {q = q} ec,
                pooled-find k s.chamas {q = q} ed,
              ),
            )
      ]

-- A reference that is there already is answered from the journal, or refused: nothing is written.
pub execute-cases :
    (op : PreparedOperation) (s : Ledger) {r : OperationResult} {s' : Ledger}
    → execute op s ≡ ok (r, s')
    → (s' ≡ s) ⊎ (post op s ≡ ok (r, s'))
unfolding execute find_existing_operation
execute-cases op s h = ground arith
