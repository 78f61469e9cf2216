-- ===== src/Reconciliation/Stored.antt =====
-- The run of a reconciliation and the items that it stores (`reconcileWindow`,
-- services/ledger.service.ts). The time at which the provider saw a transaction is left out.
use mduara_api.Prelude.{
  ℕ, ◌+◌, Bool, true, false, Option, none, some, List, [], ◌∷◌, ◌++◌, length, update_where, ltb,
  ◌==◌,
}
use mduara_api.Prelude.Int.{ℤ}
use mduara_api.Prelude.Text.{Text, trim, is_blank}
use mduara_api.Prelude.Outcome.{Outcome, ok, ◌>>◌, guard, refuse}
use mduara_api.Ledger.Operations.{currency_or_kes}
use mduara_api.Reconciliation.Window.{
  ProviderRecord, Journal, Candidate, Item, Summary, Failure, provider_required, window_invalid,
  check_records, candidates, find_candidate, find_record, all_references, item_of, summary_of,
}

-- A row of ledger_reconciliation_runs.
pub record WindowRun : Type 0 where
  pub id : ℕ
  pub provider : Text
  pub window_start : ℕ
  pub window_end : ℕ
  pub provider_record_count : ℕ
  pub matched_count : ℕ
  pub mismatch_count : ℕ
  pub is_completed : Bool

-- A row of ledger_reconciliation_items.
pub record StoredItem : Type 0 where
  pub run_id : ℕ
  pub item : Item
  pub provider_amount : Option ℤ
  pub ledger_amount : Option ℕ
  pub provider_currency : Option Text
  pub ledger_currency : Option Text

pub record Records : Type 0 where
  pub runs : List WindowRun
  pub stored : List StoredItem
  pub next_id : ℕ

abbrev pub amount_of : Option ProviderRecord → Option ℤ
amount_of none = none
amount_of (some r) = some r.amount

abbrev pub provider_currency_of : Option ProviderRecord → Option Text
provider_currency_of none = none
provider_currency_of (some r) = some (currency_or_kes r.currency)

abbrev pub ledger_amount_of : Option Candidate → Option ℕ
ledger_amount_of none = none
ledger_amount_of (some c) = some c.ledger_amount

abbrev pub ledger_currency_of : Option Candidate → Option Text
ledger_currency_of none = none
ledger_currency_of (some c) = some c.ledger_currency

abbrev pub stored_item : ℕ → List Candidate → List ProviderRecord → Text → StoredItem
stored_item run_id cs rs reference = record {
  run_id = run_id;
  item = item_of cs rs reference;
  provider_amount = amount_of (find_record reference rs);
  ledger_amount = ledger_amount_of (find_candidate reference cs);
  provider_currency = provider_currency_of (find_record reference rs);
  ledger_currency = ledger_currency_of (find_candidate reference cs);
}

abbrev pub insert_item : StoredItem → Records → Records
insert_item i s = record s { stored = s.stored ++ i ∷ [] }

-- The loop over the references: `items.push(item)`, and the row of the item.
abbrev pub store_items :
    ℕ → List Candidate → List ProviderRecord → List Text → List Item → Records → List Item × Records
store_items run_id cs rs [] items s = (items, s)
store_items run_id cs rs (reference ∷ references) items s =
    store_items run_id cs rs references (items ++ item_of cs rs reference ∷ [])
      (insert_item (stored_item run_id cs rs reference) s)

abbrev pub new_run : ℕ → Text → ℕ → ℕ → ℕ → WindowRun
new_run id provider window_start window_end record_count = record {
  id = id;
  provider = provider;
  window_start = window_start;
  window_end = window_end;
  provider_record_count = record_count;
  matched_count = 0;
  mismatch_count = 0;
  is_completed = false;
}

abbrev pub insert_run : Text → ℕ → ℕ → ℕ → Records → Records
insert_run provider window_start window_end record_count s = record s {
  runs = s.runs ++ new_run s.next_id provider window_start window_end record_count ∷ [];
  next_id = s.next_id + 1;
}

abbrev pub completed : Summary → WindowRun → WindowRun
completed summary r = record r {
  matched_count = summary.matched_count;
  mismatch_count = summary.mismatched;
  is_completed = true;
}

abbrev pub complete_run : ℕ → Summary → Records → Records
complete_run run_id summary s = record s {
  runs = update_where (λ r. r.id == run_id) (completed summary) s.runs;
}

-- `ReconciliationResult`
pub record Result : Type 0 where
  pub run_id : ℕ
  pub summary : Summary

-- `reconcileWindow`, with what it stores.
abbrev pub store_window :
    Text → ℕ → ℕ → List ProviderRecord → List Journal → Records → Result × Records
store_window provider window_start window_end rs journals s =
    let cs = candidates provider window_start window_end journals in
    let stored =
      store_items s.next_id cs rs (all_references cs rs) []
        (insert_run (trim provider) window_start window_end (length rs) s) in
    let summary = summary_of stored.0 in
    (record { run_id = s.next_id; summary = summary }, complete_run s.next_id summary stored.1)

-- `reconcileProviderWindow`, with what it stores.
unfoldable pub store_provider_window :
    Text → ℕ → ℕ → List ProviderRecord → List Journal → Records → Outcome Failure (Result × Records)
unfolding all_references
store_provider_window provider window_start window_end rs journals s = do
  refuse (is_blank provider) provider_required
  guard (ltb window_start window_end) window_invalid
  check_records [] rs
  ok (store_window provider window_start window_end rs journals s)
