-- ===== src/Ledger/Charges.antt =====
-- The charges of services/charge-ledger.service.ts touch no treasury.
use mduara_api.Prelude.{ℕ, zero, suc, ◌<◌, ◌≡◌, none, some, arith}
use mduara_api.Prelude.Int.{ℤ, pos, negsuc}
use mduara_api.Prelude.Outcome.{ok, >>=-eq-ok}
use mduara_api.Ledger.Types.{Ledger}
use mduara_api.Ledger.Journals.{
  ChargeKind, penalty, interest, Charge, charge_type, receivable_account, income_account,
  positive_charge, record_member_charge, insert_journal, insert_journal-appends, two_entries,
}
use mduara_api.Ledger.Operations.{find_reference}
use mduara_api.Ledger.Reconciled.{IsReconciled, IsReconciled-after}

charge_entries-IsReconciled :
    (k : ChargeKind) (c : Charge) (n : ℕ) (s : Ledger) {i : ℕ} {s' : Ledger}
    → IsReconciled s
    → insert_journal
        (charge_type k)
        c.reference
        c.currency
        (two_entries c.chama_id (some c.member_id) (receivable_account k) none (income_account k) n)
        s
      ≡ ok (i, s')
    → IsReconciled s'
charge_entries-IsReconciled penalty c n s v h =
    let (t, entries, reference_eq, id_eq, new, journals, chamas) =
      insert_journal-appends _ _ _ _ s h in
    IsReconciled-after t v journals (rw entries (ground arith))
      (λ i p hp. (p, rw chamas at hp, rw entries (ground arith)))
charge_entries-IsReconciled interest c n s v h =
    let (t, entries, reference_eq, id_eq, new, journals, chamas) =
      insert_journal-appends _ _ _ _ s h in
    IsReconciled-after t v journals (rw entries (ground arith))
      (λ i p hp. (p, rw chamas at hp, rw entries (ground arith)))

positive_charge-inv : (a : ℤ) {n : ℕ} → positive_charge a ≡ ok n → (0 < n) × (a ≡ pos n)
positive_charge-inv (pos zero) h = cc
positive_charge-inv (pos (suc m)) h = (ground arith, ground arith)
positive_charge-inv (negsuc m) h = cc

-- A charge that is recorded has a positive amount and a reference that was not used before, moves no
-- treasury, and keeps the ledger reconciled and every journal balanced.
pub record_member_charge-IsReconciled :
    (c : Charge) (s : Ledger) {i : ℕ} {s' : Ledger}
    → IsReconciled s
    → record_member_charge c s ≡ ok (i, s')
    → (n : ℕ) × (0 < n)
      × (c.amount ≡ pos n)
      × (find_reference c.reference s.transactions ≡ none)
      × (s'.chamas ≡ s.chamas)
      × IsReconciled s'
unfolding record_member_charge
record_member_charge-IsReconciled c s v h =
    let (n, e, x) = >>=-eq-ok (positive_charge c.amount) _ h in
    let (t, entries, reference_eq, id_eq, new, journals, chamas) =
      insert_journal-appends _ _ _ _ s x in
    let (above, amount_eq) = positive_charge-inv c.amount e in
    (n, above, amount_eq, new, chamas, charge_entries-IsReconciled c.kind c n s v x)
