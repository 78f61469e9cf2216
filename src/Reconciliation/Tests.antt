-- ===== src/Reconciliation/Tests.antt =====
-- Runs of a reconciliation (services/ledger.service.ts), and the theorems about it at some of them.
use mduara_api.Prelude.{ℕ, ◌≡◌, refl, none, some, true, List, [], ◌∷◌, ◌++◌}
use mduara_api.Prelude.Int.{pos}
use mduara_api.Prelude.Text.{Text, codes, trim}
use mduara_api.Prelude.Outcome.{ok, err}
use mduara_api.Ledger.Operations.{deposit_operation, journal_of, currency_or_kes}
use mduara_api.Reconciliation.Window.{
  ProviderRecord, Journal, Candidate, Summary, duplicate_reference, matched, missing_ledger,
  amount_mismatch, candidate_of, all_references, candidates, find_candidate, find_record,
  reconcile_provider_window,
}
use mduara_api.Reconciliation.Stored.{
  Records, new_run, stored_item, completed, store_provider_window,
}
use mduara_api.Reconciliation.Refining.{Represents, store_provider_window-refines}
use mduara_api.Reconciliation.Clean.{reconcile_provider_window-clean}

abbrev record_of : Text → ℕ → ProviderRecord
record_of reference amount = record { reference = reference; amount = pos amount; currency = none }

abbrev journal : Text → ℕ → ℕ → Journal
journal reference amount id = record {
  transaction = journal_of id (
      deposit_operation (record { reference = reference; initiated_by = none; currency = none }) 1
        amount);
  created_at = 50;
  provider = codes "mpesa";
}

abbrev journals : List Journal
journals = journal (codes "B") 20 2 ∷ journal (codes "A") 10 1 ∷ []

abbrev records : List ProviderRecord
records = record_of (codes "A") 10 ∷ record_of (codes "B") 20 ∷ []

abbrev clean : Summary
clean = record {
  matched_count = 2;
  mismatched = 0;
  items =
      record { reference = codes "A"; status = matched; ledger_id = some 1 }
      ∷ record { reference = codes "B"; status = matched; ledger_id = some 2 }
      ∷ [];
}

mismatches :
    reconcile_provider_window
      (codes "mpesa")
      0
      100
      (record_of (codes "B") 25 ∷ record_of (codes "C") 5 ∷ [])
      (journal (codes "B") 20 2 ∷ [])
    ≡ ok (record {
      matched_count = 0;
      mismatched = 2;
      items =
          record { reference = codes "B"; status = amount_mismatch; ledger_id = some 2 }
          ∷ record { reference = codes "C"; status = missing_ledger; ledger_id = none }
          ∷ [];
    })
unfolding reconcile_provider_window trim
mismatches = refl

repeated :
    reconcile_provider_window
      (codes "mpesa")
      0
      100
      (record_of (codes "B") 25 ∷ record_of (codes "B") 5 ∷ [])
      []
    ≡ err (duplicate_reference (codes "B"))
unfolding reconcile_provider_window trim
repeated = refl

reconcile_provider_window-clean_example :
    (c : Candidate) × (q : ProviderRecord) × (find_candidate
        (codes "B")
        (candidates (codes "mpesa") 0 100 journals)
      ≡ some c)
    × (find_record (codes "B") records ≡ some q)
    × (q.amount ≡ pos c.ledger_amount)
    × (c.ledger_currency ≡ currency_or_kes q.currency)
unfolding reconcile_provider_window trim
reconcile_provider_window-clean_example =
    reconcile_provider_window-clean (codes "mpesa") 0 100 records journals {summary = clean}
      (codes "B") refl refl refl

-- One run with an item is there, of another window.
abbrev one_run : Records
one_run = record {
  runs = record (new_run 8 (codes "mpesa") 0 10 0) { mismatch_count = 1; is_completed = true } ∷ [];
  stored = stored_item 8 (candidate_of (journal (codes "Z") 7 5) ∷ []) [] (codes "Z") ∷ [];
  next_id = 9;
}

abbrev stored_records : Records
stored_records = record {
  runs = one_run.runs ++ completed clean (new_run 9 (codes "mpesa") 0 100 2) ∷ [];
  stored =
      one_run.stored
      ++ stored_item 9 (candidate_of (journal (codes "A") 10 1) ∷ []) records (codes "A")
        ∷ stored_item 9 (candidate_of (journal (codes "B") 20 2) ∷ []) records (codes "B")
        ∷ [];
  next_id = 10;
}

stores :
    store_provider_window (codes "mpesa ") 0 100 records journals one_run
    ≡ ok ((record { run_id = 9; summary = clean }), stored_records)
unfolding store_provider_window all_references trim
stores = refl

store_provider_window-refines_example :
    Represents
      (store_provider_window (codes "mpesa ") 0 100 records journals one_run)
      (reconcile_provider_window (codes "mpesa ") 0 100 records journals)
store_provider_window-refines_example =
    store_provider_window-refines (codes "mpesa ") 0 100 records journals one_run (refl, refl)
