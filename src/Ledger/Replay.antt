-- ===== src/Ledger/Replay.antt =====
-- Idempotency of the ledger's references (shared/business-logic.ts).
use mduara_api.Prelude.{
  ℕ, ◌≡◌, refl, ◌∙◌, ◌⊎◌, inl, inr, Bool, true, false, none, some, List, [], ◌∷◌, ◌++◌, map, arith,
  find, if◌then◌else◌, Bool-cases, Option-cases,
}
use mathlib.Core.List.{Perm}
use mathlib.Core.List.Perm
use mduara_api.Prelude.Text.{Text, text_eq, text_eq_refl, text_eq→eq, is_blank}
use mduara_api.Prelude.Int.{ℤ}
use mduara_api.Prelude.Outcome.{ok, >>=-eq-ok}
use mduara_api.Ledger.Types.{
  Entry, Transaction, Ledger, OperationResult, BaseOperation, PreparedOperation, member_payout,
  debit,
}
use mduara_api.Ledger.Operations.{
  execute, find_existing_operation, find_reference, post, same_entries, same_keys, sort_keys,
  insert_key, text_le, entry_key, operation_code, record_member_payout, journal_of, replay_of,
  payout_operation, member_counter_entry, assert_positive_amount,
}

same_keys_refl : (ks : List Text) → same_keys ks ks ≡ true
same_keys_refl [] = refl
same_keys_refl (k ∷ ks) = ground (arith, text_eq_refl k, same_keys_refl ks)

same_keys→eq : (ks js : List Text) → same_keys ks js ≡ true → ks ≡ js
same_keys→eq [] [] h = refl
same_keys→eq [] (j ∷ js) h = cc
same_keys→eq (k ∷ ks) [] h = cc
same_keys→eq (k ∷ ks) (j ∷ js) h = ground (arith, text_eq→eq k j, same_keys→eq ks js)

insert_key-perm : (k : Text) (ks : List Text) → Perm (insert_key k ks) (k ∷ ks)
insert_key-perm k [] = Perm.refl (k ∷ [])
insert_key-perm k (j ∷ js) = elim (Bool-cases (text_le k j)) [
  | inl e ↦ rw e (Perm.refl (k ∷ j ∷ js))
  | inr e ↦ rw e (Perm.trans (Perm.cons j (insert_key-perm k js)) (Perm.swap k j js))
]

sort_keys-perm : (ks : List Text) → Perm (sort_keys ks) ks
sort_keys-perm [] = Perm.refl []
sort_keys-perm (k ∷ ks) =
    Perm.trans (insert_key-perm k (sort_keys ks)) (Perm.cons k (sort_keys-perm ks))

same_entries_refl :
    (op : PreparedOperation) (i : ℕ) → same_entries (journal_of i op) op.entries op.currency ≡ true
unfolding same_entries
same_entries_refl op i = same_keys_refl (sort_keys (map (entry_key op.currency) op.entries))

-- The test that replays a reference holds only if both sides have the same entries up to order:
-- same chamas, accounts, sides, amounts and currency.
pub same_entries-perm :
    (t : Transaction) (expected : List Entry) (currency : Text)
    → same_entries t expected currency ≡ true
    → Perm (map (entry_key t.currency) t.entries) (map (entry_key currency) expected)
unfolding same_entries
same_entries-perm t expected currency h =
    let stored = map (entry_key t.currency) t.entries in
    let wanted = map (entry_key currency) expected in
    Perm.trans (Perm.symm (sort_keys-perm stored))
      (rw (same_keys→eq (sort_keys stored) (sort_keys wanted) h) (sort_keys-perm wanted))

find-append {ℓ} :
    {A : Type ℓ} (p : A → Bool) (xs : List A) (y : A)
    → find p xs ≡ none
    → find p (xs ++ y ∷ []) ≡ (if p y then some y else none)
find-append p [] y h = refl
find-append p (x ∷ xs) y h = ground (arith, find-append p xs y)

post-journal :
    (op : PreparedOperation) (s : Ledger) {r : OperationResult} {s' : Ledger}
    → post op s ≡ ok (r, s')
    → (s'.transactions ≡ s.transactions ++ journal_of s.next_id op ∷ [])
      × (r.ledger_transaction_id ≡ s.next_id)
unfolding post
post-journal op s h = ground (arith, h)

execute-existing :
    (op : PreparedOperation) (s : Ledger) (t : Transaction)
    → is_blank op.reference ≡ false
    → find_reference op.reference s.transactions ≡ some t
    → operation_code t.operation_type ≡ operation_code op.operation_type
    → same_entries t op.entries op.currency ≡ true
    → (r : OperationResult) × (execute op s ≡ ok (r, s))
      × (r.ledger_transaction_id ≡ t.id)
      × (r.replayed ≡ true)
unfolding execute find_existing_operation
execute-existing op s t nb f c e = (replay_of t s, ground arith, refl, refl)

-- A successful call has found its reference with the same entries, or has posted a new journal.
pub execute-inv :
    (op : PreparedOperation) (s : Ledger) {r : OperationResult} {s' : Ledger}
    → execute op s ≡ ok (r, s')
    → ((t : Transaction) × (is_blank op.reference ≡ false)
        × (find_reference op.reference s.transactions ≡ some t)
        × (operation_code t.operation_type ≡ operation_code op.operation_type)
        × (same_entries t op.entries op.currency ≡ true)
        × (s' ≡ s)
        × (r ≡ replay_of t s))
      ⊎ ((is_blank op.reference ≡ false)
          × (find_reference op.reference s.transactions ≡ none)
          × (post op s ≡ ok (r, s')))
unfolding execute find_existing_operation
execute-inv op s h = elim (Option-cases (find_reference op.reference s.transactions)) [
  | inl new ↦ inr (ground arith, new, ground arith)
  | inr (t, f) ↦ inl (t, ground arith, f, ground arith, ground arith, ground arith, ground arith)
]

-- Two operations that the replay test takes for one: same type, reference and keys of entries.
abbrev pub Repeats : PreparedOperation → PreparedOperation → Type 0
Repeats op op' =
    (operation_code op.operation_type ≡ operation_code op'.operation_type)
    × (op.reference ≡ op'.reference)
    × (map (entry_key op.currency) op.entries ≡ map (entry_key op'.currency) op'.entries)

same_entries-Repeats :
    (t : Transaction) (op op' : PreparedOperation)
    → Repeats op op'
    → same_entries t op'.entries op'.currency ≡ same_entries t op.entries op.currency
unfolding same_entries
same_entries-Repeats t op op' (c, f, k) = rw k refl

execute-Repeats :
    (op op' : PreparedOperation) (s : Ledger) {r : OperationResult} {s' : Ledger}
    → Repeats op op'
    → execute op s ≡ ok (r, s')
    → (r' : OperationResult) × (execute op' s' ≡ ok (r', s'))
      × (r'.ledger_transaction_id ≡ r.ledger_transaction_id)
      × (r'.replayed ≡ true)
execute-Repeats op op' s {s' = s'} (code_eq, ref_eq, keys_eq) h = elim (execute-inv op s h) [
  | inl (t, nb, f, c, e, same, answer) ↦
      rw (same, answer)
        (execute-existing op' s t (rw (← ref_eq) nb) (rw (← ref_eq) f) (c ∙ code_eq)
          (same_entries-Repeats t op op' (code_eq, ref_eq, keys_eq) ∙ e))
  | inr (nb, new, posted) ↦
      let (journals, id_eq) = post-journal op s posted in
      let t = journal_of s.next_id op in
      let found : find_reference op.reference s'.transactions ≡ some t = rw (
        journals,
        find-append (λ u. text_eq u.reference op.reference) s.transactions t new,
        text_eq_refl op.reference,
      ) in
      rw id_eq (
        execute-existing op' s' t (rw (← ref_eq) nb) (rw (← ref_eq) found) code_eq (
          same_entries-Repeats t op op' (code_eq, ref_eq, keys_eq)
          ∙ same_entries_refl op s.next_id))
]

-- Executing a successful instruction again succeeds, writes nothing, and answers with the same
-- journal, marked as replayed.
pub execute-execute :
    (op : PreparedOperation) (s : Ledger) {r : OperationResult} {s' : Ledger}
    → execute op s ≡ ok (r, s')
    → (r' : OperationResult) × (execute op s' ≡ ok (r', s'))
      × (r'.ledger_transaction_id ≡ r.ledger_transaction_id)
      × (r'.replayed ≡ true)
execute-execute op s h = execute-Repeats op op s (refl, refl, refl) h

-- The entries are compared without their members: after a payout to one member, a payout to any
-- member under the same reference, of the same amount from the same chama, writes nothing and is
-- answered with the first member's journal.
pub record_member_payout-other_member :
    (base : BaseOperation) (i m m' : ℕ) (a : ℤ) (s : Ledger) {r : OperationResult} {s' : Ledger}
    → record_member_payout base i m a s ≡ ok (r, s')
    → (r' : OperationResult) × (record_member_payout base i m' a s' ≡ ok (r', s'))
      × (r'.ledger_transaction_id ≡ r.ledger_transaction_id)
      × (r'.replayed ≡ true)
unfolding record_member_payout
record_member_payout-other_member base i m m' a s h =
    let (n, e, x) = >>=-eq-ok (assert_positive_amount a) _ h in
    rw e (
      execute-Repeats (payout_operation base i (member_counter_entry i m member_payout debit n) n)
        (payout_operation base i (member_counter_entry i m' member_payout debit n) n) s
        (refl, refl, refl) x)
