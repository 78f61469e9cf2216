-- ===== src/Commitment/Service/Inputs.antt =====
-- The inputs of the service, their checks, and the journal of a commitment
-- (services/commitment.service.ts).
use mduara_api.Prelude.{
  ℕ, suc, ◌+◌, Bool, true, false, ◌&&◌, ◌||◌, Option, none, some, ◌∷◌, ◌++◌, map, leb,
  if◌then◌else◌,
}
use mduara_api.Prelude.Int.{ℤ, pos}
use mduara_api.Prelude.Text.{Text, codes, text_eq, trim, is_blank}
use mduara_api.Prelude.Outcome.{Outcome, ok, err, ◌>>=◌, ◌>>◌, refuse, guard}
use mduara_api.Ledger.Types
use mduara_api.Ledger.Types.{Account, OperationType, Ledger}
use mduara_api.Ledger.Journals.{insert_journal, two_entries}
use mduara_api.Commitment.Types.{
  Deposit, Failure, evidence_required, amount_not_positive, currency_not_kes, ledger,
}

-- `ProviderHoldConfirmation` and `ProviderRefundConfirmation`, less the membership.
pub record Confirmation : Type 0 where
  pub provider : Text
  pub provider_reference : Text
  pub amount : ℤ
  pub currency : Option Text
  pub occurred_at : Option ℕ

-- `CommitmentTransitionEvidence`, less the membership.
pub record Evidence : Type 0 where
  pub source : Text
  pub reference : Text

abbrev pub is_kes : Option Text → Bool
is_kes none = true
is_kes (some currency) = text_eq currency (codes "KES")

abbrev pub positive_amount : ℤ → Outcome Failure ℕ
positive_amount (pos (suc n)) = ok (suc n)
positive_amount _ = err amount_not_positive

-- `assertProviderEvidence`, and the amount.
unfoldable pub assert_provider_evidence : Confirmation → Outcome Failure ℕ
assert_provider_evidence c = do
  refuse (is_blank c.provider || is_blank c.provider_reference) evidence_required
  n ← positive_amount c.amount
  guard (is_kes c.currency) currency_not_kes
  ok n

abbrev pub assert_transition_evidence : Evidence → Outcome Failure (Unit {0})
assert_transition_evidence e = refuse (is_blank e.source || is_blank e.reference) evidence_required

-- `column === text`, where the column may be null.
abbrev pub column_eq : Option Text → Text → Bool
column_eq none t = false
column_eq (some s) t = text_eq s t

abbrev pub or_now : Option ℕ → ℕ → ℕ
or_now none now = now
or_now (some t) now = t

-- `toLowerCase`, on ASCII letters.
abbrev pub lower_code : ℕ → ℕ
lower_code c = if leb b'A' c && leb c b'Z' then c + 32 else c

pub data JournalKind : Type 0 where
  hold refund forfeit : JournalKind

abbrev pub kind_text : JournalKind → Text
kind_text hold = codes "commitment:hold:"
kind_text refund = codes "commitment:refund:"
kind_text forfeit = codes "commitment:forfeit:"

-- `commitmentLedgerReference`
unfoldable pub commitment_ledger_reference : JournalKind → Text → Text → Text
commitment_ledger_reference kind provider reference =
    kind_text kind ++ (map lower_code (trim provider) ++ (b':' ∷ trim reference))

abbrev pub journal_type : JournalKind → OperationType
journal_type hold = Types.commitment_hold
journal_type refund = Types.commitment_refund
journal_type forfeit = Types.commitment_forfeiture

abbrev pub debited_account : JournalKind → Account
debited_account hold = Types.external_clearing
debited_account refund = Types.commitment_escrow
debited_account forfeit = Types.commitment_escrow

abbrev pub credited_account : JournalKind → Account
credited_account hold = Types.commitment_escrow
credited_account refund = Types.external_clearing
credited_account forfeit = Account.commitment_forfeiture

abbrev pub lift_ledger {ℓ} : {A : Type ℓ} → Outcome Types.Failure A → Outcome Failure A
lift_ledger (ok a) = ok a
lift_ledger (err e) = err (ledger e)

-- `insertCommitmentJournal`, with the accounts that its callers give it for each kind.
unfoldable pub insert_commitment_journal :
    JournalKind → Text → Deposit → ℕ → Ledger → Outcome Failure (ℕ × Ledger)
unfolding insert_journal
insert_commitment_journal kind reference row n s = lift_ledger (
    insert_journal (journal_type kind) reference (codes "KES")
      (two_entries row.chama_id (some row.membership_id) (debited_account kind)
        (some row.membership_id) (credited_account kind) n)
      s)
