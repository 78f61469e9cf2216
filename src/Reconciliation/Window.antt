-- ===== src/Reconciliation/Window.antt =====
-- `LedgerService.reconcileProviderWindow` (services/ledger.service.ts).
use mduara_api.Prelude.{
  ℕ, ◌-◌, Bool, true, false, not, ◌&&◌, Option, none, some, List, [], ◌∷◌, ◌++◌, map, length, find,
  any, count_where, sum_where, ltb, leb, ◌==◌, if◌then◌else◌,
}
use mathlib.Core.Option
use mduara_api.Prelude.Int.{ℤ, pos, negsuc}
use mduara_api.Prelude.Text.{Text, text_eq, trim, is_blank}
use mduara_api.Prelude.Outcome.{Outcome, ok, ◌>>◌, guard, refuse}
use mduara_api.Ledger.Types.{Transaction}
use mduara_api.Ledger.Operations.{sort_keys, currency_or_kes}
use mduara_api.Ledger.Triggers.{is_debit}

-- `ProviderTransactionRecord`, less the time, which is only stored.
pub record ProviderRecord : Type 0 where
  pub reference : Text
  pub amount : ℤ
  pub currency : Option Text

-- A journal with its time and the provider in its metadata, empty if there is none.
pub record Journal : Type 0 where
  pub transaction : Transaction
  pub created_at : ℕ
  pub provider : Text

pub data ItemStatus : Type 0 where
  matched missing_ledger missing_provider amount_mismatch currency_mismatch : ItemStatus

-- `LedgerCandidateRow`
pub record Candidate : Type 0 where
  pub id : ℕ
  pub reference : Text
  pub ledger_amount : ℕ
  pub ledger_currency : Text

pub record Item : Type 0 where
  pub reference : Text
  pub status : ItemStatus
  pub ledger_id : Option ℕ

pub record Summary : Type 0 where
  pub matched_count : ℕ
  pub mismatched : ℕ
  pub items : List Item

pub data Failure : Type 0 where
  provider_required window_invalid reference_required amount_not_positive : Failure
  duplicate_reference : Text → Failure

abbrev pub is_positive : ℤ → Bool
is_positive (pos n) = ltb 0 n
is_positive (negsuc n) = false

abbrev pub is_in : Text → List Text → Bool
is_in r = any (λ t. text_eq t r)

abbrev pub check_records : List Text → List ProviderRecord → Outcome Failure (Unit {0})
check_records seen [] = ok tt
check_records seen (r ∷ rs) = do
  refuse (is_blank r.reference) reference_required
  guard (is_positive r.amount) amount_not_positive
  refuse (is_in r.reference seen) (duplicate_reference r.reference)
  check_records (r.reference ∷ seen) rs

-- The journals of the window, with the sum of their debits. A journal has one currency.
abbrev pub candidate_of : Journal → Candidate
candidate_of j = record {
  id = j.transaction.id;
  reference = j.transaction.reference;
  ledger_amount = sum_where (λ e. is_debit e.side) (λ e. e.amount) j.transaction.entries;
  ledger_currency = j.transaction.currency;
}

abbrev pub candidates : Text → ℕ → ℕ → List Journal → List Candidate
candidates provider window_start window_end [] = []
candidates provider window_start window_end (j ∷ js) =
    let rest = candidates provider window_start window_end js in
    if leb window_start j.created_at
      && ltb j.created_at window_end
      && text_eq j.provider (trim provider)
    then candidate_of j ∷ rest
    else rest

abbrev pub unique_texts : List Text → List Text → List Text
unique_texts seen [] = []
unique_texts seen (t ∷ ts) =
    let rest = unique_texts (t ∷ seen) ts in if is_in t seen then rest else t ∷ rest

abbrev pub find_candidate : Text → List Candidate → Option Candidate
find_candidate reference = find (λ c. text_eq c.reference reference)

abbrev pub find_record : Text → List ProviderRecord → Option ProviderRecord
find_record reference = find (λ r. text_eq r.reference reference)

-- `[...new Set([...ledger, ...provider])].sort()`
unfoldable pub all_references : List Candidate → List ProviderRecord → List Text
all_references cs rs =
    sort_keys (unique_texts [] (map (λ c. c.reference) cs ++ map (λ r. r.reference) rs))

abbrev pub same_amount : ℕ → ℤ → Bool
same_amount n (pos m) = n == m
same_amount n (negsuc m) = false

abbrev pub classify : Option Candidate → Option ProviderRecord → ItemStatus
classify none r = missing_ledger
classify (some c) none = missing_provider
classify (some c) (some r) =
    if not (same_amount c.ledger_amount r.amount)
    then amount_mismatch
    else if not (text_eq c.ledger_currency (currency_or_kes r.currency))
    then currency_mismatch
    else matched

abbrev pub item_of : List Candidate → List ProviderRecord → Text → Item
item_of cs rs reference = record {
  reference = reference;
  status = classify (find_candidate reference cs) (find_record reference rs);
  ledger_id = Option.map (λ c. c.id) (find_candidate reference cs);
}

abbrev pub is_matched : ItemStatus → Bool
is_matched matched = true
is_matched _ = false

abbrev pub summary_of : List Item → Summary
summary_of items = record {
  matched_count = count_where (λ i. is_matched i.status) items;
  mismatched = length items - count_where (λ i. is_matched i.status) items;
  items = items;
}

-- `reconcileWindow`
unfoldable pub reconcile_window : Text → ℕ → ℕ → List ProviderRecord → List Journal → Summary
unfolding all_references
reconcile_window provider window_start window_end rs journals =
    let cs = candidates provider window_start window_end journals in
    summary_of (map (item_of cs rs) (all_references cs rs))

unfoldable pub reconcile_provider_window :
    Text → ℕ → ℕ → List ProviderRecord → List Journal → Outcome Failure Summary
unfolding reconcile_window
reconcile_provider_window provider window_start window_end rs journals = do
  refuse (is_blank provider) provider_required
  guard (ltb window_start window_end) window_invalid
  check_records [] rs
  ok (reconcile_window provider window_start window_end rs journals)
