-- ===== src/Ledger/Operations/Recording.antt =====
-- The public operations of `LedgerBusinessLogic` (shared/business-logic.ts).
use mduara_api.Prelude.{ℕ, suc, Option, none, some, List, [], ◌∷◌, ◌==◌}
use mduara_api.Prelude.Int.{ℤ, pos, neg}
use mduara_api.Prelude.Text.{Text, codes}
use mduara_api.Prelude.Outcome.{Outcome, ok, err, ◌>>=◌, ◌>>◌, refuse}
use mduara_api.Ledger.Types.{
  Account, chama_treasury, member_contribution, member_payout, member_loan_principal, Side, debit,
  credit, OperationType, deposit, payout, transfer, Entry, Ledger, Failure, amount_not_positive,
  same_chama, OperationResult, BaseOperation, PreparedOperation,
}
use mduara_api.Ledger.Operations.Posting.{execute}

-- The amount, once it is known to be above zero.
abbrev pub assert_positive_amount : ℤ → Outcome Failure ℕ
assert_positive_amount (pos (suc n)) = ok (suc n)
assert_positive_amount _ = err amount_not_positive

abbrev pub currency_or_kes : Option Text → Text
currency_or_kes none = codes "KES"
currency_or_kes (some currency) = currency

abbrev pub treasury_entry : ℕ → Side → ℕ → Entry
treasury_entry chama_id side amount = record {
  chama_id = chama_id;
  member_id = none;
  account = chama_treasury;
  side = side;
  amount = amount;
}

abbrev pub counter_entry : ℕ → Account → Side → ℕ → Entry
counter_entry chama_id account side amount = record {
  chama_id = chama_id;
  member_id = none;
  account = account;
  side = side;
  amount = amount;
}

abbrev pub member_counter_entry : ℕ → ℕ → Account → Side → ℕ → Entry
member_counter_entry chama_id member_id account side amount = record {
  chama_id = chama_id;
  member_id = some member_id;
  account = account;
  side = side;
  amount = amount;
}

abbrev prepare : OperationType → BaseOperation → List (ℕ × ℤ) → List Entry → PreparedOperation
prepare operation_type base deltas entries = record {
  operation_type = operation_type;
  reference = base.reference;
  initiated_by = base.initiated_by;
  currency = currency_or_kes base.currency;
  deltas = deltas;
  entries = entries;
}

abbrev pub deposit_operation : BaseOperation → ℕ → ℕ → PreparedOperation
deposit_operation base chama_id n =
    prepare deposit base ((chama_id, pos n) ∷ [])
      (treasury_entry chama_id debit n ∷ counter_entry chama_id member_contribution credit n ∷ [])

-- A payment out of the treasury, against the entry that says what it was for.
abbrev pub payout_operation : BaseOperation → ℕ → Entry → ℕ → PreparedOperation
payout_operation base chama_id counter n =
    prepare payout base ((chama_id, neg (pos n)) ∷ [])
      (counter ∷ treasury_entry chama_id credit n ∷ [])

abbrev pub transfer_operation : BaseOperation → ℕ → ℕ → ℕ → PreparedOperation
transfer_operation base from_chama_id to_chama_id n =
    prepare transfer base ((from_chama_id, neg (pos n)) ∷ (to_chama_id, pos n) ∷ [])
      (treasury_entry from_chama_id credit n ∷ treasury_entry to_chama_id debit n ∷ [])

module _ (base : BaseOperation) where
  unfoldable pub record_deposit : ℕ → ℤ → Ledger → Outcome Failure (OperationResult × Ledger)
  unfolding execute
  record_deposit chama_id amount s = do
    n ← assert_positive_amount amount
    execute (deposit_operation base chama_id n) s

  unfoldable pub record_payout : ℕ → ℤ → Ledger → Outcome Failure (OperationResult × Ledger)
  unfolding execute
  record_payout chama_id amount s = do
    n ← assert_positive_amount amount
    execute (payout_operation base chama_id (counter_entry chama_id member_payout debit n) n) s

  -- `recordMemberPayoutWithinTransaction`
  unfoldable pub record_member_payout :
      ℕ → ℕ → ℤ → Ledger → Outcome Failure (OperationResult × Ledger)
  unfolding execute
  record_member_payout chama_id member_id amount s = do
    n ← assert_positive_amount amount
    execute
        (payout_operation base chama_id
          (member_counter_entry chama_id member_id member_payout debit n) n)
        s

  -- `recordLoanDisbursementWithinTransaction`
  unfoldable pub record_loan_disbursement :
      ℕ → ℕ → ℤ → Ledger → Outcome Failure (OperationResult × Ledger)
  unfolding execute
  record_loan_disbursement chama_id member_id amount s = do
    n ← assert_positive_amount amount
    execute
        (payout_operation base chama_id
          (member_counter_entry chama_id member_id member_loan_principal debit n) n)
        s

  unfoldable pub record_transfer : ℕ → ℕ → ℤ → Ledger → Outcome Failure (OperationResult × Ledger)
  unfolding execute
  record_transfer from_chama_id to_chama_id amount s = do
    n ← assert_positive_amount amount
    refuse (from_chama_id == to_chama_id) same_chama
    execute (transfer_operation base from_chama_id to_chama_id n) s
