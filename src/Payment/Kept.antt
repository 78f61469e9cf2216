-- ===== src/Payment/Kept.antt =====
-- What a payment keeps: the ledger's reconciliation, and the rows that are found again after it
-- (`processStkCallback`, services/payment.service.ts).
use mduara_api.Prelude.{
  ℕ, ◌+◌, ◌≡◌, refl, sym, ap, ◌∙◌, subst, ◌&&◌, Option, none, some, List, [], ◌∷◌, sum_where,
  update_where, ◌==◌, ==_refl, if◌then◌else◌, inl, inr, Bool-cases, arith, find, find-update_where,
  find-update_self,
}
use mathlib.Core.Option
use mduara_api.Prelude.Int.{pos}
use mduara_api.Prelude.Text.{Text}
use mduara_api.Ledger.Types.{Ledger, Chama}
use mduara_api.Ledger.Operations.{append_journal}
use mduara_api.Ledger.Triggers.{pooled}
use mduara_api.Ledger.Reconciled.{IsReconciled, IsReconciled-after}
use mduara_api.Trust.Types.{ContributionStatus, confirmed, Inputs, Records, Contribution}
use mduara_api.Trust.Score.{
  is_confirmed, refresh_membership_score, refresh-payments, refresh-contributions,
}
use mduara_api.Payment.Types.{ProviderLog, Tables}
use mduara_api.Payment.Service.{
  Link, find_log, add_to_pool, deposit_journal, ledger_reference, confirm_log, link_of,
  confirmed_amount, find_contribution, set_contribution_status,
}
use mduara_api.Payment.Effects.{IsSettled, known, posted}

pub pooled-add_to_pool :
    (i chama_id n : ℕ) (chamas : List Chama) {p : ℕ}
    → pooled i (
        update_where
          (λ c. c.id == chama_id)
          (λ c. record c { pooled_amount = c.pooled_amount + n })
          chamas)
      ≡ some p
    → (q : ℕ) × (pooled i chamas ≡ some q) × (p ≡ (if i == chama_id then q + n else q))
pooled-add_to_pool i chama_id n [] h = cc
pooled-add_to_pool i chama_id n (c ∷ cs) {p} h = elim (Bool-cases (c.id == i)) [
  | inl e ↦ (c.pooled_amount, ground (arith, e), ground (arith, e, h))
  | inr e ↦
      let (q, hq, hp) = pooled-add_to_pool i chama_id n cs {p = p} (ground (arith, e, h)) in
      (q, ground (arith, e, hq), hp)
]

-- A payment's journal stands for what the pool gains.
pub IsSettled-IsReconciled :
    (log : ProviderLog) (link : Link) (amount : ℕ) (receipt : Text) (l l' : Ledger)
    → IsSettled log link amount receipt l l'
    → IsReconciled l
    → IsReconciled l'
IsSettled-IsReconciled log link amount receipt l l' (known same) v = subst IsReconciled (sym same) v
IsSettled-IsReconciled log link amount receipt l l' (posted new stored) v =
    let journal = deposit_journal l.next_id (ledger_reference receipt) log.user_id link amount in
    let next = add_to_pool link.chama_id amount (append_journal journal l) in
    subst IsReconciled (sym stored) (
      IsReconciled-after {s = l} {s' = next} journal v refl (ground arith) (λ i p hp.
        let (q, hq, pq) = pooled-add_to_pool i link.chama_id amount l.chamas hp in
        (q, hq, ground (arith, pq))))

pub find_log-same :
    (checkout : Text) (s t : Tables) → t.logs ≡ s.logs → find_log checkout t ≡ find_log checkout s
find_log-same checkout s t h = rw h refl

pub linked-contribution :
    (contribution_id chama_id member_id : Option ℕ) {link : Link}
    → link_of contribution_id chama_id member_id ≡ some link
    → contribution_id ≡ some link.contribution_id
linked-contribution (some a) (some b) (some c) h = ground (arith, h)
linked-contribution none b c h = cc
linked-contribution (some a) none c h = cc
linked-contribution (some a) (some b) none h = cc

-- The log of a checkout, once it is confirmed.
pub find_log-confirmed :
    (checkout : Text) (log : ProviderLog) (receipt : Text) (s : Tables)
    → find_log checkout s ≡ some log
    → find_log checkout (confirm_log log.id receipt s)
      ≡ some (record log {
        status = confirmed;
        result_code = some (pos 0);
        receipt_number = some receipt;
      })
find_log-confirmed checkout log receipt s found =
    find-update_where _ (λ l. l.id == log.id) _ (λ l. refl) s.logs
    ∙ ground (arith, found, ==_refl log.id)

-- The payments stay when the score is refreshed.
pub confirmed_amount-kept :
    (key_of : ℕ → Inputs → Text) (today member_id contribution_id : ℕ) (status : ContributionStatus)
    (r r' : Records)
    → refresh_membership_score key_of today member_id
        (set_contribution_status contribution_id status r)
      ≡ some r'
    → confirmed_amount contribution_id r' ≡ confirmed_amount contribution_id r
confirmed_amount-kept key_of today member_id contribution_id status r r' h =
    ap
      (λ ps.
        sum_where (λ p. p.contribution_id == contribution_id && is_confirmed p.status)
          (λ p. p.amount) ps)
      (refresh-payments key_of today member_id (set_contribution_status contribution_id status r) r'
        h)

pub find_contribution-status :
    (id : ℕ) (status : ContributionStatus) (c : Contribution) (r : Records)
    → find_contribution id r ≡ some c
    → find_contribution id (set_contribution_status id status r)
      ≡ some (record c { status = status })
find_contribution-status id status c r found =
    find-update_self (λ d. d.id == id) (λ d. record d { status = status }) (λ d. refl)
      r.contributions
    ∙ ap (Option.map {A = Contribution} (λ d. record d { status = status })) found

-- The row of the contribution once its status is set and the score is refreshed.
pub find_contribution-refreshed :
    (key_of : ℕ → Inputs → Text) (today member_id id : ℕ) (status : ContributionStatus)
    (c : Contribution) (r mid r' : Records)
    → mid.contributions ≡ r.contributions
    → find_contribution id r ≡ some c
    → refresh_membership_score key_of today member_id (set_contribution_status id status mid)
      ≡ some r'
    → find_contribution id r' ≡ some (record c { status = status })
find_contribution-refreshed key_of today member_id id status c r mid r' same found h =
    let find_in = find (λ (d : Contribution). d.id == id) in
    ap find_in
      (refresh-contributions key_of today member_id (set_contribution_status id status mid) r' h)
    ∙ find_contribution-status id status c mid (ap find_in same ∙ found)
