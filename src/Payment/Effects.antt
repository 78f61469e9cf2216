-- ===== src/Payment/Effects.antt =====
-- What a callback that is confirmed has done (`processStkCallback`, services/payment.service.ts).
use mduara_api.Prelude.{
  ℕ, ◌≤◌, ◌≡◌, sym, ap, false, ◌&&◌, Option, none, some, ◌==◌, ltb, inl, inr, Option-cases, arith,
}
use mduara_api.Prelude.Text.{Text, trim, is_empty, codes}
use mduara_api.Prelude.Outcome.{
  ok, guard, refuse, require, >>=-eq-ok, ok-pair, guard-true, refuse-false, require-some,
}
use mduara_api.Ledger.Types.{Ledger}
use mduara_api.Ledger.Operations.{append_journal, find_reference}
use mduara_api.Trust.Types.{Contribution, ContributionPayment, Inputs, Records}
use mduara_api.Trust.Score.{refresh_membership_score}
use mduara_api.Payment.Types.{
  ProviderLog, Tables, StkCallback, context_missing, metadata_invalid, amount_mismatch,
  contribution_not_found, overpaid, membership_not_found, receipt_conflict, payment_confirmed,
}
use mduara_api.Payment.Values.{metadata, value_text, or_zero, big_int}
use mduara_api.Payment.Service.{
  CallbackReport, Link, link_of, confirm, complete, settle_receipt, find_receipt, find_contribution,
  confirmed_amount, status_for, set_contribution_status, confirm_log, write_audit, positive,
  add_to_pool, deposit_journal, ledger_reference, post_payment,
}

-- The ledger after a payment: it is as before, or has one more deposit.
pub data IsSettled (log : ProviderLog) (link : Link) (amount : ℕ) (receipt : Text) (l l' : Ledger)
    : Type 0 where
  known : l' ≡ l → IsSettled log link amount receipt l l'
  posted :
      find_reference (ledger_reference receipt) l.transactions ≡ none
      → l'
        ≡ add_to_pool link.chama_id amount (
            append_journal
              (deposit_journal l.next_id (ledger_reference receipt) log.user_id link amount)
              l)
      → IsSettled log link amount receipt l l'

post_payment-ok :
    (receipt : Text) (initiated_by : Option ℕ) (link : Link) (amount : ℕ) (l : Ledger) {l' : Ledger}
    → post_payment receipt initiated_by link amount l ≡ ok l'
    → (find_reference (ledger_reference receipt) l.transactions ≡ none)
      × (l'
          ≡ add_to_pool link.chama_id amount (
              append_journal
                (deposit_journal l.next_id (ledger_reference receipt) initiated_by link amount)
                l))
post_payment-ok receipt initiated_by link amount l h =
    elim (Option-cases (find_reference (ledger_reference receipt) l.transactions)) [
      | inl new ↦ (new, ground (arith, new, h))
      | inr (t, taken) ↦ absurd (ground (arith, taken, h))
    ]

settle-IsSettled :
    (found : Option ContributionPayment) (log : ProviderLog) (link : Link) (amount : ℕ)
    (receipt : Text) (now : ℕ) (s : Tables) {settled : ℕ × Tables}
    → settle_receipt found log link amount receipt now s ≡ ok settled
    → IsSettled log link amount receipt s.ledger settled.1.ledger
      × (settled.1.logs ≡ s.logs)
      × (settled.1.records.contributions ≡ s.records.contributions)
settle-IsSettled (some existing) log link amount receipt now s h =
    let (u, same, h1) =
      >>=-eq-ok
        (guard (existing.contribution_id == link.contribution_id && existing.amount == amount)
          receipt_conflict)
        _ h in
    (known (ground (arith, h1)), ground (arith, h1), ground (arith, h1))
settle-IsSettled none log link amount receipt now s h =
    let (ledger, posting, h1) =
      >>=-eq-ok (post_payment receipt log.user_id link amount s.ledger) _ h in
    let (new, stored) = post_payment-ok receipt log.user_id link amount s.ledger posting in
    (posted new (ground (arith, h1, stored)), ground (arith, h1), ground (arith, h1))

not-ltb : (a b : ℕ) → ltb a b ≡ false → b ≤ a
not-ltb a b h = ground arith

module _ (key_of : ℕ → Inputs → Text) where
  -- The callback of a payment that was not confirmed before, with the tables `mid` between the
  -- payment and what follows from it.
  pub record HasConfirmed (log : ProviderLog) (now today : ℕ) (s : Tables) (report : CallbackReport)
      (s' : Tables) : Type 0 where
    pub link : Link
    pub amount : ℕ
    pub receipt : Text
    pub contribution : Contribution
    pub mid : Tables
    pub records : Records
    pub linked : link_of log.contribution_id log.chama_id log.member_id ≡ some link
    pub agreed : amount ≡ log.amount
    pub located : find_contribution link.contribution_id s.records ≡ some contribution
    pub settled : IsSettled log link amount receipt s.ledger mid.ledger
    pub same_logs : mid.logs ≡ s.logs
    pub same_contributions : mid.records.contributions ≡ s.records.contributions
    pub within : confirmed_amount link.contribution_id mid.records ≤ contribution.expected_amount
    pub scored :
        refresh_membership_score key_of today link.member_id (
          set_contribution_status link.contribution_id
            (status_for
              (confirmed_amount link.contribution_id mid.records)
              contribution.expected_amount)
            mid.records)
        ≡ some records
    pub reported :
        report.contribution_status
        ≡ some (
            status_for
              (confirmed_amount link.contribution_id mid.records)
              contribution.expected_amount)
    pub stored :
        s'
        ≡ write_audit payment_confirmed log.id
            (confirm_log log.id receipt (record mid { records = records }))

  pub confirm-HasConfirmed :
      (log : ProviderLog) (callback : StkCallback) (now today : ℕ) (s : Tables)
      {report : CallbackReport} {s' : Tables}
      → confirm key_of log callback now today s ≡ ok (report, s')
      → HasConfirmed log now today s report s'
  unfolding confirm complete
  confirm-HasConfirmed log callback now today s h =
      let (link, linked, h1) =
        >>=-eq-ok (require (link_of log.contribution_id log.chama_id log.member_id) context_missing)
          _ h in
      let receipt = trim (value_text (metadata (codes "MpesaReceiptNumber") callback.items)) in
      let (value, read, h2) =
        >>=-eq-ok (big_int (or_zero (metadata (codes "Amount") callback.items))) _ h1 in
      let (u3, given, h3) = >>=-eq-ok (refuse (is_empty receipt) metadata_invalid) _ h2 in
      let (amount, above, h4) = >>=-eq-ok (positive value metadata_invalid) _ h3 in
      let (u5, agreed, h5) = >>=-eq-ok (guard (amount == log.amount) amount_mismatch) _ h4 in
      let (contribution, located, h6) =
        >>=-eq-ok
          (require (find_contribution link.contribution_id s.records) contribution_not_found) _
          h5 in
      let (settled, settling, h7) =
        >>=-eq-ok (settle_receipt (find_receipt receipt s.records) log link amount receipt now s) _
          h6 in
      let mid = settled.1 in
      let paid_in = confirmed_amount link.contribution_id mid.records in
      let status = status_for paid_in contribution.expected_amount in
      let (u8, within, h8) =
        >>=-eq-ok (refuse (ltb contribution.expected_amount paid_in) overpaid) _ h7 in
      let (records, scored, h9) =
        >>=-eq-ok
          (require
            (refresh_membership_score key_of today link.member_id
              (set_contribution_status link.contribution_id status mid.records))
            membership_not_found)
          _ h8 in
      let (same_report, same_state) = ok-pair h9 in
      let (paid, same_logs, same_contributions) =
        settle-IsSettled (find_receipt receipt s.records) log link amount receipt now s settling in
      record {
        link = link;
        amount = amount;
        receipt = receipt;
        contribution = contribution;
        mid = mid;
        records = records;
        linked =
            require-some (link_of log.contribution_id log.chama_id log.member_id) context_missing
              linked;
        agreed = ground (arith, guard-true (amount == log.amount) amount_mismatch agreed);
        located =
            require-some (find_contribution link.contribution_id s.records) contribution_not_found
              located;
        settled = paid;
        same_logs = same_logs;
        same_contributions = same_contributions;
        within =
            not-ltb contribution.expected_amount paid_in
              (refuse-false (ltb contribution.expected_amount paid_in) overpaid within);
        scored =
            require-some
              (refresh_membership_score key_of today link.member_id
                (set_contribution_status link.contribution_id status mid.records))
              membership_not_found scored;
        reported = sym (ap (λ (r : CallbackReport). r.contribution_status) same_report);
        stored = sym same_state;
      }
