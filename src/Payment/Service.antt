-- ===== src/Payment/Service.antt =====
-- `class PaymentService` (services/payment.service.ts): a payment is asked for, and the provider's
-- callback confirms it.
use mduara_api.Prelude.{
  ℕ, zero, suc, ◌+◌, ◌-◌, Bool, true, false, not, ◌&&◌, Option, none, some, [], ◌∷◌, ◌++◌, find,
  sum_where, update_where, ltb, ◌==◌, if◌then◌else◌,
}
use mduara_api.Prelude.Int.{ℤ, pos, negsuc}
use mduara_api.Prelude.Text.{Text, text_eq, codes, trim, is_empty}
use mduara_api.Prelude.Outcome.{Outcome, ok, err, ◌>>=◌, ◌>>◌, guard, refuse, require}
use mduara_api.Mpesa.{trim_or_empty}
use mduara_api.Ledger.Types.{chama_treasury, member_contribution, deposit, Transaction, Ledger}
use mduara_api.Ledger.Journals.{two_entries}
use mduara_api.Ledger.Operations.{find_reference, append_journal}
use mduara_api.Trust.Types.{
  ContributionStatus, partially_paid, paid, late, PaymentStatus, confirmed, failed, MemberStatus,
  Contribution, ContributionPayment, Member, Inputs, Records,
}
use mduara_api.Trust.Score.{is_confirmed, refresh_membership_score}
use mduara_api.Payment.Types.{
  ProviderLog, AuditAction, payment_confirmed, Tables, Failure, amount_invalid,
  contribution_not_found, membership_inactive, not_payable, already_paid, exceeds_remaining,
  gateway_failed, callback_invalid, checkout_unknown, context_missing, metadata_invalid,
  amount_mismatch, receipt_conflict, reference_taken, overpaid, membership_not_found, StkCallback,
}
use mduara_api.Payment.Values.{normalize_kenyan_phone, metadata, value_text, or_zero, big_int}

abbrev pub confirmed_amount : ℕ → Records → ℕ
confirmed_amount contribution_id r =
    sum_where (λ p. p.contribution_id == contribution_id && is_confirmed p.status) (λ p. p.amount)
      r.payments

abbrev pub is_payable : ContributionStatus → Bool
is_payable ContributionStatus.pending = true
is_payable partially_paid = true
is_payable late = true
is_payable _ = false

abbrev pub is_active_member : MemberStatus → Bool
is_active_member MemberStatus.active = true
is_active_member _ = false

abbrev pub find_contribution : ℕ → Records → Option Contribution
find_contribution id r = find (λ c. c.id == id) r.contributions

-- `loadContributionContext`: the contribution with the member, who is the user.
abbrev pub load_context : ℕ → ℕ → Records → Option (Contribution × Member)
load_context contribution_id user_id r = elim (find_contribution contribution_id r) [
  | none ↦ none
  | some c ↦
      elim (find (λ m. m.id == c.member_id && m.chama_id == c.chama_id && m.user_id == user_id)
        r.members) [ none ↦ none | some m ↦ some (c, m) ]
]

abbrev pub positive : ℤ → Failure → Outcome Failure ℕ
positive (pos zero) failure = err failure
positive (pos (suc n)) failure = ok (suc n)
positive (negsuc n) failure = err failure

abbrev pub new_log : ℕ → ℕ → Contribution → ℕ → Text → ProviderLog
new_log id user_id c amount phone = record {
  id = id;
  user_id = some user_id;
  contribution_id = some c.id;
  chama_id = some c.chama_id;
  member_id = some c.member_id;
  checkout_request_id = none;
  amount = amount;
  phone_number = phone;
  status = PaymentStatus.pending;
  result_code = none;
  receipt_number = none;
}

-- `initiateStkPush` up to the call of the gateway.
unfoldable pub begin_payment : ℕ → ℕ → ℤ → Text → Tables → Outcome Failure (ProviderLog × Tables)
unfolding normalize_kenyan_phone
begin_payment user_id contribution_id amount phone_number s = do
  n ← positive amount amount_invalid
  context ← require (load_context contribution_id user_id s.records) contribution_not_found
  guard (is_active_member context.1.status) membership_inactive
  guard (is_payable context.0.status) not_payable
  guard (ltb (confirmed_amount context.0.id s.records) context.0.expected_amount) already_paid
  refuse (ltb (context.0.expected_amount - confirmed_amount context.0.id s.records) n)
      exceeds_remaining
  phone ← normalize_kenyan_phone phone_number
  let log = new_log s.next_id user_id context.0 n phone
  ok (log, record s { logs = s.logs ++ log ∷ []; next_id = s.next_id + 1 })

abbrev pub update_log : ℕ → (ProviderLog → ProviderLog) → Tables → Tables
update_log id f s = record s { logs = update_where (λ l. l.id == id) f s.logs }

-- The gateway has accepted the request.
abbrev pub record_checkout : ℕ → Text → Tables → Tables
record_checkout id checkout_request_id =
    update_log id (λ l. record l { checkout_request_id = some checkout_request_id })

abbrev pub fail_log : ℕ → Tables → Tables
fail_log id = update_log id (λ l. record l { status = failed })

abbrev pub write_audit : AuditAction → ℕ → Tables → Tables
write_audit action log_id s = record s {
  audits = s.audits ++ (record { action = action; log_id = log_id }) ∷ [];
}

abbrev pub find_log : Text → Tables → Option ProviderLog
find_log checkout_request_id s =
    find (λ l. elim l.checkout_request_id [ none ↦ false | some c ↦ text_eq c checkout_request_id ])
      s.logs

abbrev pub find_receipt : Text → Records → Option ContributionPayment
find_receipt receipt r =
    find (λ p. elim p.provider_reference [ none ↦ false | some c ↦ text_eq c receipt ]) r.payments

abbrev pub is_zero : ℤ → Bool
is_zero (pos zero) = true
is_zero _ = false

-- The log's contribution, chama and member.
pub record Link : Type 0 where
  pub contribution_id : ℕ
  pub chama_id : ℕ
  pub member_id : ℕ

abbrev pub link_of : Option ℕ → Option ℕ → Option ℕ → Option Link
link_of (some contribution_id) (some chama_id) (some member_id) =
    some (record { contribution_id = contribution_id; chama_id = chama_id; member_id = member_id })
link_of _ _ _ = none

abbrev pub new_payment : ℕ → Link → ℕ → Text → ℕ → ContributionPayment
new_payment id link amount receipt now = record {
  id = id;
  contribution_id = link.contribution_id;
  chama_id = link.chama_id;
  member_id = link.member_id;
  amount = amount;
  provider_reference = some receipt;
  status = confirmed;
  paid_at = now;
}

abbrev pub ledger_reference : Text → Text
ledger_reference receipt = codes "mpesa:stk:" ++ receipt

abbrev pub deposit_journal : ℕ → Text → Option ℕ → Link → ℕ → Transaction
deposit_journal id reference initiated_by link amount = record {
  id = id;
  operation_type = deposit;
  reference = reference;
  initiated_by = initiated_by;
  currency = codes "KES";
  entries =
      two_entries link.chama_id none chama_treasury (some link.member_id) member_contribution
        amount;
}

abbrev pub add_to_pool : ℕ → ℕ → Ledger → Ledger
add_to_pool chama_id amount s = record s {
  chamas =
      update_where (λ c. c.id == chama_id)
        (λ c. record c { pooled_amount = c.pooled_amount + amount }) s.chamas;
}

-- The ledger's part of a payment: the reference of a journal is UNIQUE.
abbrev pub post_payment : Text → Option ℕ → Link → ℕ → Ledger → Outcome Failure Ledger
post_payment receipt initiated_by link amount l =
    elim (find_reference (ledger_reference receipt) l.transactions) [
      | some t ↦ err reference_taken
      | none ↦ ok (
          add_to_pool link.chama_id amount (
            append_journal
              (deposit_journal l.next_id (ledger_reference receipt) initiated_by link amount) l))
    ]

abbrev pub add_payment : ContributionPayment → Records → Records
add_payment p r = record r { payments = r.payments ++ p ∷ [] }

-- The payment of the receipt: the one that is there, or a new one with its journal.
abbrev pub settle_receipt :
    Option ContributionPayment
    → ProviderLog
    → Link
    → ℕ
    → Text
    → ℕ
    → Tables
    → Outcome Failure (ℕ × Tables)
settle_receipt (some existing) log link amount receipt now s = do
  guard (existing.contribution_id == link.contribution_id && existing.amount == amount)
      receipt_conflict
  ok (existing.id, s)
settle_receipt none log link amount receipt now s = do
  ledger ← post_payment receipt log.user_id link amount s.ledger
  ok (
    s.next_id,
    record s {
      records = add_payment (new_payment s.next_id link amount receipt now) s.records;
      ledger = ledger;
      next_id = s.next_id + 1;
    },
  )

abbrev pub status_for : ℕ → ℕ → ContributionStatus
status_for paid_in expected = if paid_in == expected then paid else partially_paid

abbrev pub set_contribution_status : ℕ → ContributionStatus → Records → Records
set_contribution_status id status r = record r {
  contributions =
      update_where (λ c. c.id == id) (λ c. record c { status = status }) r.contributions;
}

abbrev pub confirm_log : ℕ → Text → Tables → Tables
confirm_log id receipt = update_log id (λ l. record l {
  status = confirmed;
  result_code = some (pos 0);
  receipt_number = some receipt;
})

-- `replayed`, and the status of the contribution where it is set.
pub record CallbackReport : Type 0 where
  pub log_id : ℕ
  pub contribution_status : Option ContributionStatus
  pub replayed : Bool

abbrev pub is_some : {A : Type 0} → Option A → Bool
is_some none = false
is_some (some value) = true

-- How the gateway answers a request; the development gateway confirms it at once.
pub data GatewayAnswer : Type 0 where
  rejected : GatewayAnswer
  accepted : Text → GatewayAnswer
  simulated : Text → StkCallback → GatewayAnswer

module _ (key_of : ℕ → Inputs → Text) where
  -- After the payment: the contribution's status, the member's score, the log and the audit.
  unfoldable pub complete :
      ProviderLog → Link → ℕ → Text → ℕ → Bool → Tables → Outcome Failure (CallbackReport × Tables)
  unfolding refresh_membership_score
  complete log link expected receipt today replayed s = do
    let paid_in = confirmed_amount link.contribution_id s.records
    refuse (ltb expected paid_in) overpaid
    records ←
        require
          (refresh_membership_score key_of today link.member_id
            (set_contribution_status link.contribution_id (status_for paid_in expected) s.records))
          membership_not_found
    ok (
      (record {
        log_id = log.id;
        contribution_status = some (status_for paid_in expected);
        replayed = replayed;
      }),
      write_audit payment_confirmed log.id
          (confirm_log log.id receipt (record s { records = records })),
    )

  -- The audit of a mismatch is rolled back with the transaction that throws.
  unfoldable pub confirm :
      ProviderLog → StkCallback → ℕ → ℕ → Tables → Outcome Failure (CallbackReport × Tables)
  unfolding big_int
  confirm log callback now today s = do
    link ← require (link_of log.contribution_id log.chama_id log.member_id) context_missing
    let receipt = trim (value_text (metadata (codes "MpesaReceiptNumber") callback.items))
    value ← big_int (or_zero (metadata (codes "Amount") callback.items))
    refuse (is_empty receipt) metadata_invalid
    amount ← positive value metadata_invalid
    guard (amount == log.amount) amount_mismatch
    contribution ← require (find_contribution link.contribution_id s.records) contribution_not_found
    settled ← settle_receipt (find_receipt receipt s.records) log link amount receipt now s
    complete log link contribution.expected_amount receipt today
        (is_some (find_receipt receipt s.records)) settled.1

  unfoldable pub apply_callback :
      ProviderLog → StkCallback → ℤ → ℕ → ℕ → Tables → Outcome Failure (CallbackReport × Tables)
  apply_callback log callback code now today s =
      if is_confirmed log.status
      then ok ((record { log_id = log.id; contribution_status = none; replayed = true }), s)
      else if not (is_zero code)
      then ok (
        (record { log_id = log.id; contribution_status = none; replayed = false }),
        update_log log.id (λ l. record l { status = failed; result_code = some code }) s,
      )
      else confirm log callback now today s

  -- `processStkCallback`
  unfoldable pub process_stk_callback :
      StkCallback → ℕ → ℕ → Tables → Outcome Failure (CallbackReport × Tables)
  process_stk_callback callback now today s = do
    let checkout = trim_or_empty callback.checkout_request_id
    refuse (is_empty checkout) callback_invalid
    code ← require callback.result_code callback_invalid
    log ← require (find_log checkout s) checkout_unknown
    apply_callback log callback code now today s

  abbrev pub after_simulation :
      ProviderLog
      → Tables
      → Outcome Failure (CallbackReport × Tables)
      → Outcome Failure (Unit {0}) × Tables
  after_simulation log s (err failure) = (err failure, fail_log log.id s)
  after_simulation log s (ok (report, s')) = (ok tt, s')

  unfoldable pub after_gateway :
      GatewayAnswer → ProviderLog → ℕ → ℕ → Tables → Outcome Failure (Unit {0}) × Tables
  unfolding process_stk_callback
  after_gateway rejected log now today s = (err gateway_failed, fail_log log.id s)
  after_gateway (accepted checkout) log now today s = (ok tt, record_checkout log.id checkout s)
  after_gateway (simulated checkout callback) log now today s =
      let recorded = record_checkout log.id checkout s in
      after_simulation log recorded (process_stk_callback callback now today recorded)

  abbrev pub request_gateway :
      GatewayAnswer
      → ℕ
      → ℕ
      → Tables
      → Outcome Failure (ProviderLog × Tables)
      → Outcome Failure (Unit {0}) × Tables
  request_gateway answer now today s (err failure) = (err failure, s)
  request_gateway answer now today s (ok (log, s')) = after_gateway answer log now today s'

  -- `initiateStkPush`; its statements do not share a transaction.
  unfoldable pub initiate_stk_push :
      ℕ → ℕ → ℤ → Text → GatewayAnswer → ℕ → ℕ → Tables → Outcome Failure (Unit {0}) × Tables
  unfolding begin_payment process_stk_callback
  initiate_stk_push user_id contribution_id amount phone_number answer now today s =
      request_gateway answer now today s
        (begin_payment user_id contribution_id amount phone_number s)
