-- ===== src/Subscription/Charging.antt =====
-- The fee of a payment in the ledger, and the rows that are found again after it
-- (services/subscription.service.ts).
use mduara_api.Prelude.{
  ℕ, [], ◌∷◌, ◌++◌, ◌≤◌, ◌≡◌, refl, sym, ◌∙◌, subst, Bool, true, Option, none, some, leb, ◌==◌,
  ==_refl, inl, inr, Option-cases, arith, find-update_where,
}
use mduara_api.Prelude.Int.{pos}
use mduara_api.Prelude.Text.{Text, codes}
use mduara_api.Prelude.Outcome.{ok}
use mduara_api.Ledger.Types.{
  external_clearing, platform_fee_revenue, debit, credit, platform_fee, Transaction, Ledger,
}
use mduara_api.Ledger.Operations.{find_reference}
use mduara_api.Ledger.Reconciled.{IsReconciled, IsReconciled-after}
use mduara_api.Payment.Types.{StkCallback}
use mduara_api.Subscription.Types.{paid, Plan, Subscription, FeePayment, Tables}
use mduara_api.Subscription.Billing.{
  CallbackReport, find_subscription, find_checkout, renew_subscription, period_start, post_fee,
  fee_journal, fee_reference, renewed, confirm_payment, process_stk_callback,
}
use mduara_api.Subscription.Renewal.{unchanged, paid_in, process-IsApplied, IsApplied}

pub post_fee-IsReconciled :
    (receipt : Text) (p : FeePayment) (amount : ℕ) (l : Ledger)
    → IsReconciled l
    → IsReconciled (post_fee receipt p amount l)
post_fee-IsReconciled receipt p amount l v =
    elim (Option-cases (find_reference (fee_reference receipt) l.transactions)) [
      | inl new ↦
          rw (new, post_fee)
            (IsReconciled-after (fee_journal l.next_id (fee_reference receipt) p amount) v refl
              (ground arith) (λ i q hq. (q, hq, ground arith)))
      | inr (t, found) ↦ rw (found, post_fee) v
    ]

pub applied-IsReconciled :
    (p : FeePayment) (callback : StkCallback) (now : ℕ) (s : Tables) (report : CallbackReport)
    (s' : Tables)
    → IsReconciled s.ledger
    → IsApplied p callback now s report s'
    → IsReconciled s'.ledger
applied-IsReconciled p callback now s report s' v (unchanged same unreported) =
    subst IsReconciled (sym same) v
applied-IsReconciled p callback now s report s' v (paid_in c) =
    subst (λ (t : Tables). IsReconciled t.ledger) (sym c.stored)
      (post_fee-IsReconciled c.receipt p c.amount s.ledger v)

-- A callback that is processed, whatever its outcome, keeps the ledger reconciled: a fee moves no
-- treasury, and its journal is balanced.
pub process_stk_callback-KeepsLedger :
    (callback : StkCallback) (now : ℕ) (s : Tables) (report : CallbackReport) (s' : Tables)
    → IsReconciled s.ledger
    → process_stk_callback callback now s ≡ ok (report, s')
    → IsReconciled s'.ledger
process_stk_callback-KeepsLedger callback now s report s' v h =
    let (p, given, found, applied) = process-IsApplied callback now s h in
    applied-IsReconciled p callback now s report s' v applied

abbrev pub at_least : Option ℕ → ℕ → Bool
at_least none time = true
at_least (some earlier) time = leb earlier time

pub now-period_start : (period_end : Option ℕ) (now : ℕ) → now ≤ period_start period_end now
now-period_start none now = ground arith
now-period_start (some time) now = ground arith

pub end-period_start :
    (period_end : Option ℕ) (now : ℕ) → at_least period_end (period_start period_end now) ≡ true
end-period_start none now = refl
end-period_start (some time) now = ground arith

-- The subscription of the id, once it is renewed.
pub find_subscription-renewed :
    (plan : Plan) (p : FeePayment) (amount start id : ℕ) (row : Subscription) (s : Tables)
    → find_subscription id s ≡ some row
    → find_subscription id (renew_subscription row.id plan p amount start s)
      ≡ some (renewed plan p amount start row)
find_subscription-renewed plan p amount start id row s found =
    find-update_where _ (λ r. r.id == row.id) _ (λ r. refl) s.subscriptions
    ∙ ground (arith, found, ==_refl row.id)

-- The payment of a checkout, once it is paid.
pub find_checkout-paid :
    (checkout : Text) (p : FeePayment) (receipt : Text) (s : Tables)
    → find_checkout checkout s ≡ some p
    → find_checkout checkout (confirm_payment p.id receipt s)
      ≡ some (record p { status = paid; result_code = some (pos 0); receipt_number = some receipt })
find_checkout-paid checkout p receipt s found =
    find-update_where _ (λ q. q.id == p.id) _ (λ q. refl) s.payments
    ∙ ground (arith, found, ==_refl p.id)

-- The ledger of a payment that is charged: the journal of the receipt was there, and nothing is
-- posted, or there was none, and one is appended with the amount of the payment on both sides, from
-- the clearing account to the revenue of the platform.
pub data IsCharged (p : FeePayment) (receipt : Text) (l l' : Ledger) : Type 0 where
  known :
      (t : Transaction)
      → find_reference (codes "mpesa:subscription:" ++ receipt) l.transactions ≡ some t
      → l' ≡ l
      → IsCharged p receipt l l'
  posted :
      find_reference (codes "mpesa:subscription:" ++ receipt) l.transactions ≡ none
      → l'.chamas ≡ l.chamas
      → l'.transactions
        ≡ l.transactions
          ++ (record {
            id = l.next_id;
            operation_type = platform_fee;
            reference = codes "mpesa:subscription:" ++ receipt;
            initiated_by = p.initiated_by;
            currency = p.currency;
            entries =
                (record {
                  chama_id = p.chama_id;
                  member_id = none;
                  account = external_clearing;
                  side = debit;
                  amount = p.amount;
                })
                ∷ (record {
                  chama_id = p.chama_id;
                  member_id = none;
                  account = platform_fee_revenue;
                  side = credit;
                  amount = p.amount;
                })
                ∷ [];
          })
            ∷ []
      → IsCharged p receipt l l'

pub post_fee-IsCharged :
    (receipt : Text) (p : FeePayment) (l : Ledger)
    → IsCharged p receipt l (post_fee receipt p p.amount l)
post_fee-IsCharged receipt p l =
    elim (Option-cases (find_reference (fee_reference receipt) l.transactions)) [
      | inl new ↦ rw (new, post_fee) (posted new refl refl)
      | inr (t, found) ↦ rw (found, post_fee) (known t found refl)
    ]
