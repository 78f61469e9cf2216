-- ===== src/Ledger/Operations/Posting.antt =====
-- `execute` and the functions that it calls (shared/business-logic.ts).
use mduara_api.Prelude.{
  ℕ, ◌+◌, Bool, true, false, not, ◌&&◌, Option, none, some, List, [], ◌∷◌, ◌++◌, map, length, find,
  any, update_where, leb, ◌==◌, if◌then◌else◌,
}
use mduara_api.Prelude.Int.{ℤ, pos, negsuc, ◌+ℤ◌}
use mduara_api.Prelude.Text.{Text, text_eq, is_blank}
use mduara_api.Prelude.Outcome.{Outcome, ok, err, ◌>>=◌, ◌>>◌, guard}
use mduara_api.Ledger.Types.{
  Account, chama_treasury, member_contribution, member_payout, external_clearing,
  member_penalty_receivable, penalty_income, member_interest_receivable, interest_income,
  commitment_escrow, commitment_forfeiture, member_loan_principal, loan_default_recovery,
  platform_fee_revenue, Side, debit, credit, OperationType, deposit, payout, transfer,
  contribution_penalty, loan_interest, commitment_hold, commitment_refund, platform_fee, Entry,
  Transaction, Chama, Ledger, Failure, reference_required, treasury_not_found,
  insufficient_treasury_funds, idempotency_conflict, OperationResult, PreparedOperation,
}
use mduara_api.Ledger.Types

-- `[...new Set(ids)]`
abbrev pub unique_from : List ℕ → List ℕ → List ℕ
unique_from seen [] = []
unique_from seen (i ∷ is) =
    let rest = unique_from (i ∷ seen) is in if any (λ j. j == i) seen then rest else i ∷ rest

abbrev pub unique : List ℕ → List ℕ
unique ids = unique_from [] ids

abbrev pub insert_sorted : ℕ → List ℕ → List ℕ
insert_sorted i [] = i ∷ []
insert_sorted i (j ∷ js) = if leb i j then i ∷ j ∷ js else j ∷ insert_sorted i js

-- `.sort()`
abbrev pub sort : List ℕ → List ℕ
sort [] = []
sort (i ∷ is) = insert_sorted i (sort is)

-- `WHERE id = ANY(ids) ORDER BY id`, at ids that are sorted: the id is the primary key.
abbrev pub select_chamas : List ℕ → List Chama → List Chama
select_chamas [] chamas = []
select_chamas (i ∷ is) chamas =
    let rest = select_chamas is chamas in
    elim (find (λ c. c.id == i) chamas) [ none ↦ rest | some c ↦ c ∷ rest ]

unfoldable pub lock_treasuries : List ℕ → Ledger → Outcome Failure (List Chama)
lock_treasuries chama_ids s =
    let unique_ids = sort (unique chama_ids) in
    let rows = select_chamas unique_ids s.chamas in
    if length rows == length unique_ids
    then ok rows
    else err (treasury_not_found (find (λ i. not (any (λ c. c.id == i) rows)) unique_ids))

-- `deltas.get(id) ?? 0n`
abbrev pub delta_of : ℕ → List (ℕ × ℤ) → ℤ
delta_of i [] = pos 0
delta_of i ((j, d) ∷ ds) = if j == i then d else delta_of i ds

-- `if (newBalance < 0n) throw new InsufficientTreasuryFundsError(treasury.id)`
abbrev pub checked_balance : ℕ → ℤ → Outcome Failure (ℕ × ℕ)
checked_balance i (pos n) = ok (i, n)
checked_balance i (negsuc n) = err (insufficient_treasury_funds i)

unfoldable pub calculate_balances : List Chama → List (ℕ × ℤ) → Outcome Failure (List (ℕ × ℕ))
calculate_balances [] deltas = ok []
calculate_balances (t ∷ ts) deltas = do
  balance ← checked_balance t.id (pos t.pooled_amount +ℤ delta_of t.id deltas)
  balances ← calculate_balances ts deltas
  ok (balance ∷ balances)

-- `UPDATE chamas SET pooled_amount = $1 WHERE id = $2`
abbrev pub set_pooled_amount : ℕ → ℕ → List Chama → List Chama
set_pooled_amount i balance =
    update_where (λ c. c.id == i) (λ c. record c { pooled_amount = balance })

unfoldable pub write_balances : List (ℕ × ℕ) → List Chama → List Chama
write_balances [] chamas = chamas
write_balances ((i, balance) ∷ balances) chamas =
    write_balances balances (set_pooled_amount i balance chamas)

-- The journal that `insertLedgerTransaction` and `insertLedgerEntries` write.
abbrev pub journal_of : ℕ → PreparedOperation → Transaction
journal_of i op = record {
  id = i;
  operation_type = op.operation_type;
  reference = op.reference;
  initiated_by = op.initiated_by;
  currency = op.currency;
  entries = op.entries;
}

abbrev pub append_journal : Transaction → Ledger → Ledger
append_journal t s = record s { transactions = s.transactions ++ t ∷ []; next_id = s.next_id + 1 }

-- What `execute` does when the reference is new.
unfoldable pub post : PreparedOperation → Ledger → Outcome Failure (OperationResult × Ledger)
unfolding lock_treasuries calculate_balances write_balances
post op s = do
  treasuries ← lock_treasuries (map (λ d. d.0) op.deltas) s
  balances ← calculate_balances treasuries op.deltas
  let posted = append_journal (journal_of s.next_id op) s
  ok (
    record { ledger_transaction_id = s.next_id; balances = balances; replayed = false },
    record posted { chamas = write_balances balances s.chamas },
  )

abbrev pub account_code : Account → ℕ
account_code chama_treasury = 0
account_code member_contribution = 1
account_code member_payout = 2
account_code external_clearing = 3
account_code member_penalty_receivable = 4
account_code penalty_income = 5
account_code member_interest_receivable = 6
account_code interest_income = 7
account_code commitment_escrow = 8
account_code commitment_forfeiture = 9
account_code member_loan_principal = 10
account_code loan_default_recovery = 11
account_code platform_fee_revenue = 12

abbrev pub side_code : Side → ℕ
side_code debit = 0
side_code credit = 1

abbrev pub operation_code : OperationType → ℕ
operation_code deposit = 0
operation_code payout = 1
operation_code transfer = 2
operation_code contribution_penalty = 3
operation_code loan_interest = 4
operation_code commitment_hold = 5
operation_code commitment_refund = 6
operation_code Types.commitment_forfeiture = 7
operation_code platform_fee = 8

-- The text `${chamaId}|${account}|${side}|${amount}|${currency}`, as the list of its fields.
abbrev pub entry_key : Text → Entry → Text
entry_key currency e = e.chama_id ∷ account_code e.account ∷ side_code e.side ∷ e.amount ∷ currency

abbrev pub text_le : Text → Text → Bool
text_le [] ys = true
text_le (x ∷ xs) [] = false
text_le (x ∷ xs) (y ∷ ys) = let rest = text_le xs ys in if x == y then rest else leb x y

abbrev pub insert_key : Text → List Text → List Text
insert_key k [] = k ∷ []
insert_key k (j ∷ js) = if text_le k j then k ∷ j ∷ js else j ∷ insert_key k js

abbrev pub sort_keys : List Text → List Text
sort_keys [] = []
sort_keys (k ∷ ks) = insert_key k (sort_keys ks)

abbrev pub same_keys : List Text → List Text → Bool
same_keys [] [] = true
same_keys [] (y ∷ ys) = false
same_keys (x ∷ xs) [] = false
same_keys (x ∷ xs) (y ∷ ys) = text_eq x y && same_keys xs ys

-- Sorted keys of the stored and of the expected entries, compared one by one.
unfoldable pub same_entries : Transaction → List Entry → Text → Bool
same_entries t expected currency =
    same_keys (sort_keys (map (entry_key t.currency) t.entries))
      (sort_keys (map (entry_key currency) expected))

abbrev pub find_reference : Text → List Transaction → Option Transaction
find_reference reference = find (λ t. text_eq t.reference reference)

abbrev pub replay_of : Transaction → Ledger → OperationResult
replay_of t s = record {
  ledger_transaction_id = t.id;
  balances =
      map (λ c. (c.id, c.pooled_amount))
        (select_chamas (sort (unique (map (λ e. e.chama_id) t.entries))) s.chamas);
  replayed = true;
}

-- `findExistingOperation`: the earlier result, nothing, or the conflict that it throws.
unfoldable pub find_existing_operation :
    PreparedOperation → Ledger → Outcome Failure (Option OperationResult)
find_existing_operation op s = elim (find_reference op.reference s.transactions) [
  | none ↦ ok none
  | some t ↦
      if operation_code t.operation_type == operation_code op.operation_type
        && same_entries t op.entries op.currency
      then ok (some (replay_of t s))
      else err (idempotency_conflict op.reference)
]

abbrev pub replay_or_post :
    PreparedOperation → Ledger → Option OperationResult → Outcome Failure (OperationResult × Ledger)
replay_or_post op s (some replay) = ok (replay, s)
replay_or_post op s none = post op s

-- `execute`, and `executeWithinTransaction`, which does the same in the caller's transaction.
unfoldable pub execute : PreparedOperation → Ledger → Outcome Failure (OperationResult × Ledger)
execute op s = do
  guard (not (is_blank op.reference)) reference_required
  replay ← find_existing_operation op s
  replay_or_post op s replay
