-- ===== src/Payment/Confirming.antt =====
-- What a callback of the provider keeps, and what a second one does (`processStkCallback`,
-- services/payment.service.ts).
use mduara_api.Prelude.{
  some_injective, ℕ, ◌≡◌, sym, ap, ◌∙◌, subst, true, false, none, some, ◌≤◌, ◌==◌, if◌then◌else◌,
  inl, inr, Bool-cases, arith,
}
use mduara_api.Prelude.Int.{ℤ}
use mduara_api.Prelude.Text.{Text, is_empty}
use mduara_api.Prelude.Outcome.{ok, refuse, require, >>=-eq-ok, ok-pair, refuse-false, require-some}
use mduara_api.Mpesa.{trim_or_empty}
use mduara_api.Ledger.Reconciled.{IsReconciled}
use mduara_api.Trust.Types.{ContributionStatus, paid, partially_paid, Inputs, Contribution}
use mduara_api.Trust.Score.{is_confirmed}
use mduara_api.Payment.Types.{ProviderLog, Tables, StkCallback, callback_invalid, checkout_unknown}
use mduara_api.Payment.Service.{
  CallbackReport, process_stk_callback, apply_callback, find_log, is_zero, confirmed_amount,
  find_contribution, status_for,
}
use mduara_api.Payment.Effects.{HasConfirmed, confirm-HasConfirmed}
use mduara_api.Payment.Kept.{
  IsSettled-IsReconciled, find_log-same, linked-contribution, find_log-confirmed,
  confirmed_amount-kept, find_contribution-refreshed,
}

module _ (key_of : ℕ → Inputs → Text) where
  -- How a callback that returned was applied.
  pub data IsApplied (log : ProviderLog) (code : ℤ) (now today : ℕ) (s : Tables)
      (report : CallbackReport) (s' : Tables) : Type 0 where
    replayed :
        is_confirmed log.status ≡ true
        → s' ≡ s
        → report.contribution_status ≡ none
        → IsApplied log code now today s report s'
    refused :
        s'.ledger ≡ s.ledger
        → s'.records ≡ s.records
        → report.contribution_status ≡ none
        → IsApplied log code now today s report s'
    paid_in :
        HasConfirmed key_of log now today s report s' → IsApplied log code now today s report s'

  apply-IsApplied :
      (log : ProviderLog) (callback : StkCallback) (code : ℤ) (now today : ℕ) (s : Tables)
      {report : CallbackReport} {s' : Tables}
      → apply_callback key_of log callback code now today s ≡ ok (report, s')
      → IsApplied log code now today s report s'
  unfolding apply_callback
  apply-IsApplied log callback code now today s {report} {s'} h =
      elim (Bool-cases (is_confirmed log.status)) [
        | inl done ↦
            let (same_report, same_state) = ok-pair (rw done at h) in
            replayed done (sym same_state)
              (sym (ap (λ (r : CallbackReport). r.contribution_status) same_report))
        | inr fresh ↦ elim (Bool-cases (is_zero code)) [
          | inl success ↦
              paid_in
                (confirm-HasConfirmed key_of log callback now today s (rw (fresh, success) at h))
          | inr failure ↦
              let (same_report, same_state) = ok-pair (rw (fresh, failure) at h) in
              refused (sym (ap (λ (t : Tables). t.ledger) same_state))
                (sym (ap (λ (t : Tables). t.records) same_state))
                (sym (ap (λ (r : CallbackReport). r.contribution_status) same_report))
        ]
      ]

  process-IsApplied :
      (callback : StkCallback) (now today : ℕ) (s : Tables) {report : CallbackReport} {s' : Tables}
      → process_stk_callback key_of callback now today s ≡ ok (report, s')
      → (log : ProviderLog) × (code : ℤ) × (is_empty (trim_or_empty callback.checkout_request_id)
          ≡ false)
        × (callback.result_code ≡ some code)
        × (find_log (trim_or_empty callback.checkout_request_id) s ≡ some log)
        × IsApplied log code now today s report s'
  unfolding process_stk_callback
  process-IsApplied callback now today s h =
      let checkout = trim_or_empty callback.checkout_request_id in
      let (u, given, h1) = >>=-eq-ok (refuse (is_empty checkout) callback_invalid) _ h in
      let (code, coded, h2) = >>=-eq-ok (require callback.result_code callback_invalid) _ h1 in
      let (log, found, h3) = >>=-eq-ok (require (find_log checkout s) checkout_unknown) _ h2 in
      (
        log,
        code,
        refuse-false (is_empty checkout) callback_invalid given,
        require-some callback.result_code callback_invalid coded,
        require-some (find_log checkout s) checkout_unknown found,
        apply-IsApplied log callback code now today s h3,
      )

  -- A callback that is processed, whatever its outcome, keeps the ledger reconciled: each chama's
  -- pooled amount is still its treasury debits less its treasury credits, and each journal balanced.
  pub process_stk_callback-IsReconciled :
      (callback : StkCallback) (now today : ℕ) (s : Tables) (report : CallbackReport) (s' : Tables)
      → IsReconciled s.ledger
      → process_stk_callback key_of callback now today s ≡ ok (report, s')
      → IsReconciled s'.ledger
  process_stk_callback-IsReconciled callback now today s report s' v h =
      let (log, code, given, coded, found, applied) = process-IsApplied callback now today s h in
      keeps log code applied
    where
      keeps :
          (log : ProviderLog) (code : ℤ)
          → IsApplied log code now today s report s'
          → IsReconciled s'.ledger
      keeps log code (replayed done same unreported) =
          subst (λ (t : Tables). IsReconciled t.ledger) (sym same) v
      keeps log code (refused same_ledger same_records unreported) =
          subst IsReconciled (sym same_ledger) v
      keeps log code (paid_in c) =
          subst (λ (t : Tables). IsReconciled t.ledger) (sym c.stored)
            (IsSettled-IsReconciled log c.link c.amount c.receipt s.ledger c.mid.ledger c.settled v)

  -- A callback that reports a status has confirmed a payment.
  has_confirmed :
      (callback : StkCallback) (now today : ℕ) (s : Tables) {report : CallbackReport} {s' : Tables}
      {status : ContributionStatus}
      → process_stk_callback key_of callback now today s ≡ ok (report, s')
      → report.contribution_status ≡ some status
      → (log : ProviderLog) × (is_empty (trim_or_empty callback.checkout_request_id) ≡ false)
        × (find_log (trim_or_empty callback.checkout_request_id) s ≡ some log)
        × HasConfirmed key_of log now today s report s'
  has_confirmed callback now today s {report} {s'} {status} h reported =
      let (log, code, given, coded, found, applied) = process-IsApplied callback now today s h in
      (log, given, found, only log code applied)
    where
      only :
          (log : ProviderLog) (code : ℤ)
          → IsApplied log code now today s report s'
          → HasConfirmed key_of log now today s report s'
      only log code (replayed done same unreported) = absurd (ground (arith, unreported, reported))
      only log code (refused same_ledger same_records unreported) =
          absurd (ground (arith, unreported, reported))
      only log code (paid_in c) = c

  -- If a callback reports the status of a contribution, then the row of the contribution that the log
  -- of the checkout names has this status and is otherwise as it was. The confirmed payments of the
  -- contribution add up to no more than is expected of it, and the status is 'paid' if they add up to
  -- this amount and 'partially_paid' if they do not.
  pub process_stk_callback-never_overpays :
      (callback : StkCallback) (now today : ℕ) (s : Tables) (report : CallbackReport) (s' : Tables)
      (status : ContributionStatus)
      → process_stk_callback key_of callback now today s ≡ ok (report, s')
      → report.contribution_status ≡ some status
      → (log : ProviderLog) × (contribution_id : ℕ) × (contribution : Contribution) × (find_log
            (trim_or_empty callback.checkout_request_id)
            s
          ≡ some log)
        × (log.contribution_id ≡ some contribution_id)
        × (find_contribution contribution_id s.records ≡ some contribution)
        × (find_contribution contribution_id s'.records
            ≡ some (record contribution { status = status }))
        × (confirmed_amount contribution_id s'.records ≤ contribution.expected_amount)
        × (status ≡ (
            if confirmed_amount contribution_id s'.records == contribution.expected_amount
            then paid
            else partially_paid))
  process_stk_callback-never_overpays callback now today s report s' status h reported =
      let (log, given, found, c) = has_confirmed callback now today s h reported in
      let total =
        confirmed_amount-kept key_of today c.link.member_id c.link.contribution_id
          (status_for (confirmed_amount c.link.contribution_id c.mid.records)
            c.contribution.expected_amount)
          c.mid.records c.records c.scored in
      let set =
        status_for (confirmed_amount c.link.contribution_id c.mid.records)
          c.contribution.expected_amount in
      let as_reported : status ≡ set = some_injective (sym reported ∙ c.reported) in
      let amounts =
        ap (λ (t : Tables). confirmed_amount c.link.contribution_id t.records) c.stored ∙ total in
      (
        log,
        c.link.contribution_id,
        c.contribution,
        found,
        linked-contribution log.contribution_id log.chama_id log.member_id c.linked,
        c.located,
        ap (λ (t : Tables). find_contribution c.link.contribution_id t.records) c.stored
            ∙ find_contribution-refreshed key_of today c.link.member_id c.link.contribution_id set
                c.contribution s.records c.mid.records c.records c.same_contributions c.located
                c.scored
            ∙ ap (λ st. some (record c.contribution { status = st })) (sym as_reported),
        omega (arith, amounts, c.within),
        as_reported ∙ ap (λ n. status_for n c.contribution.expected_amount) (sym amounts),
      )

  -- After a callback that confirmed a payment, a later one for the same checkout with any result code
  -- is answered as a replay and changes nothing.
  pub process_stk_callback-twice :
      (callback again : StkCallback) (now today later later_day : ℕ) (s : Tables)
      (report : CallbackReport) (s' : Tables) (status : ContributionStatus) (code : ℤ)
      → process_stk_callback key_of callback now today s ≡ ok (report, s')
      → report.contribution_status ≡ some status
      → trim_or_empty again.checkout_request_id ≡ trim_or_empty callback.checkout_request_id
      → again.result_code ≡ some code
      → (log : ProviderLog) × (find_log (trim_or_empty callback.checkout_request_id) s ≡ some log)
        × (process_stk_callback key_of again later later_day s'
            ≡ ok ((record { log_id = log.id; contribution_status = none; replayed = true }), s'))
  unfolding process_stk_callback apply_callback
  process_stk_callback-twice callback again now today later later_day s report s' status code h
        reported same coded =
      let (log, given, found, c) = has_confirmed callback now today s h reported in
      let checkout = trim_or_empty callback.checkout_request_id in
      let paid = record c.mid { records = c.records } in
      let kept =
        find_log-confirmed checkout log c.receipt paid
          (find_log-same checkout s paid c.same_logs ∙ found) in
      let stored = ap (find_log checkout) c.stored ∙ kept in
      (log, found, ground (arith, same, given, coded, stored))
