-- ===== src/Reconciliation/Refining.antt =====
-- The tables hold the summary that `reconcileProviderWindow` returns (services/ledger.service.ts).
use mduara_api.Prelude.{
  ℕ, ◌≡◌, refl, sym, ap, ◌∙◌, subst, Bool, true, Option, none, some, List, [], ◌∷◌, ◌++◌, map,
  length, find, ltb, ◌==◌, ==_refl, if◌then◌else◌, arith, find-update_self,
}
use mathlib.Core.Option
use mduara_api.Prelude.Text.{Text, is_blank, trim}
use mduara_api.Prelude.Outcome.{Outcome, ok, err, ◌>>◌, refuse, guard}
use mduara_api.Reconciliation.Window.{
  ProviderRecord, Journal, Candidate, Item, Summary, Failure, provider_required, window_invalid,
  check_records, candidates, all_references, item_of, summary_of, reconcile_window,
  reconcile_provider_window,
}
use mduara_api.Reconciliation.Stored.{
  WindowRun, StoredItem, Records, Result, stored_item, insert_item, store_items, new_run,
  insert_run, completed, complete_run, store_window, store_provider_window,
}

-- The items of a run, as its summary has them.
abbrev pub items_of : ℕ → List StoredItem → List Item
items_of run_id [] = []
items_of run_id (i ∷ is) =
    let rest = items_of run_id is in if i.run_id == run_id then i.item ∷ rest else rest

abbrev pub find_run : ℕ → Records → Option WindowRun
find_run run_id s = find (λ r. r.id == run_id) s.runs

abbrev pub summary_from : Option WindowRun → List Item → Option Summary
summary_from none items = none
summary_from (some r) items =
    if r.is_completed
    then some
        (record { matched_count = r.matched_count; mismatched = r.mismatch_count; items = items })
    else none

-- The summary that the tables hold of a run which is completed.
abbrev pub summary_in : ℕ → Records → Option Summary
summary_in run_id s = summary_from (find_run run_id s) (items_of run_id s.stored)

-- The id that is generated next is on no run and on no item.
abbrev pub IsUnused : Records → Type 0
IsUnused s = (find_run s.next_id s ≡ none) × (items_of s.next_id s.stored ≡ [])

items_of-insert :
    (run_id : ℕ) (is : List StoredItem) (i : StoredItem)
    → i.run_id ≡ run_id
    → items_of run_id (is ++ i ∷ []) ≡ items_of run_id is ++ i.item ∷ []
items_of-insert run_id [] i h = ground (arith, h)
items_of-insert run_id (x ∷ is) i h = ground (arith, h, items_of-insert run_id is i h)

append_assoc : {A : Type 0} (xs ys zs : List A) → (xs ++ ys) ++ zs ≡ xs ++ (ys ++ zs)
append_assoc [] ys zs = refl
append_assoc (x ∷ xs) ys zs = ap (λ ws. x ∷ ws) (append_assoc xs ys zs)

append_nil : {A : Type 0} (xs : List A) → xs ++ [] ≡ xs
append_nil [] = refl
append_nil (x ∷ xs) = ap (λ ws. x ∷ ws) (append_nil xs)

-- The loop returns the items of all references, after those that it had.
store_items-returns :
    (run_id : ℕ) (cs : List Candidate) (rs : List ProviderRecord) (references : List Text)
    (items : List Item) (s : Records)
    → (store_items run_id cs rs references items s).0 ≡ items ++ map (item_of cs rs) references
store_items-returns run_id cs rs [] items s = sym (append_nil items)
store_items-returns run_id cs rs (r ∷ references) items s =
    store_items-returns run_id cs rs references (items ++ item_of cs rs r ∷ [])
      (insert_item (stored_item run_id cs rs r) s)
    ∙ append_assoc items (item_of cs rs r ∷ []) (map (item_of cs rs) references)

-- The loop stores what it returns: if the rows were the items so far, they are so at the end.
store_items-stores :
    (run_id : ℕ) (cs : List Candidate) (rs : List ProviderRecord) (references : List Text)
    (items : List Item) (s : Records)
    → items_of run_id s.stored ≡ items
    → items_of run_id (store_items run_id cs rs references items s).1.stored
      ≡ (store_items run_id cs rs references items s).0
store_items-stores run_id cs rs [] items s h = h
store_items-stores run_id cs rs (r ∷ references) items s h =
    store_items-stores run_id cs rs references (items ++ item_of cs rs r ∷ [])
      (insert_item (stored_item run_id cs rs r) s)
      (items_of-insert run_id s.stored (stored_item run_id cs rs r) refl
        ∙ ap (λ is. is ++ item_of cs rs r ∷ []) h)

store_items-runs :
    (run_id : ℕ) (cs : List Candidate) (rs : List ProviderRecord) (references : List Text)
    (items : List Item) (s : Records)
    → (store_items run_id cs rs references items s).1.runs ≡ s.runs
store_items-runs run_id cs rs [] items s = refl
store_items-runs run_id cs rs (r ∷ references) items s =
    store_items-runs run_id cs rs references (items ++ item_of cs rs r ∷ [])
      (insert_item (stored_item run_id cs rs r) s)

find_last :
    {A : Type 0} (p : A → Bool) (xs : List A) (x : A)
    → find p xs ≡ none
    → p x ≡ true
    → find p (xs ++ x ∷ []) ≡ some x
find_last p [] x h e = ground (arith, e)
find_last p (y ∷ xs) x h e = ground (arith, h, e, find_last p xs x)

summary_in-completed :
    (run_id : ℕ) (summary : Summary) (s : Records) (r : WindowRun)
    → find_run run_id s ≡ some r
    → items_of run_id s.stored ≡ summary.items
    → summary_in run_id (complete_run run_id summary s) ≡ some summary
summary_in-completed run_id summary s r found items =
    ap (λ o. summary_from o (items_of run_id s.stored))
      (find-update_self (λ q. q.id == run_id) (completed summary) (λ q. refl) s.runs
        ∙ ap (Option.map (completed summary)) found)
    ∙ ap (summary_from (some (completed summary r))) items

store_window-holds :
    (provider : Text) (window_start window_end : ℕ) (rs : List ProviderRecord)
    (journals : List Journal) (s : Records)
    → IsUnused s
    → summary_in s.next_id (store_window provider window_start window_end rs journals s).1
      ≡ some (store_window provider window_start window_end rs journals s).0.summary
store_window-holds provider window_start window_end rs journals s (no_run, no_item) =
    let cs = candidates provider window_start window_end journals in
    let begun = insert_run (trim provider) window_start window_end (length rs) s in
    let stored = store_items s.next_id cs rs (all_references cs rs) [] begun in
    let run = new_run s.next_id (trim provider) window_start window_end (length rs) in
    summary_in-completed s.next_id (summary_of stored.0) stored.1 run
      (ap (find (λ r. r.id == s.next_id))
          (store_items-runs s.next_id cs rs (all_references cs rs) [] begun)
        ∙ find_last (λ r. r.id == s.next_id) s.runs run no_run (==_refl s.next_id))
      (store_items-stores s.next_id cs rs (all_references cs rs) [] begun no_item)

-- How a run with its tables stands for the outcome without them: the same error, or a result with the
-- summary, which the tables hold under the id of the run.
pub data Represents : Outcome Failure (Result × Records) → Outcome Failure Summary → Type 0 where
  failed : (failure : Failure) → Represents (err failure) (err failure)
  held :
      (result : Result) (s : Records)
      → summary_in result.run_id s ≡ some result.summary
      → Represents (ok (result, s)) (ok result.summary)

store_window-Represents :
    (provider : Text) (window_start window_end : ℕ) (rs : List ProviderRecord)
    (journals : List Journal) (s : Records)
    → IsUnused s
    → Represents
        (ok (store_window provider window_start window_end rs journals s))
        (ok (reconcile_window provider window_start window_end rs journals))
unfolding reconcile_window
store_window-Represents provider window_start window_end rs journals s v =
    let cs = candidates provider window_start window_end journals in
    let begun = insert_run (trim provider) window_start window_end (length rs) s in
    let done = store_window provider window_start window_end rs journals s in
    subst (λ items. Represents (ok done) (ok (summary_of items)))
      (store_items-returns s.next_id cs rs (all_references cs rs) [] begun)
      (held done.0 done.1 (store_window-holds provider window_start window_end rs journals s v))

-- A step that both share.
after :
    (step : Outcome Failure (Unit {0})) (o : Outcome Failure (Result × Records))
    (p : Outcome Failure Summary)
    → Represents o p
    → Represents (step >> o) (step >> p)
after (err failure) o p h = failed failure
after (ok u) o p h = h

-- If the id that is generated next is unused, then the reconciliation that stores its run and its items
-- one by one refines the one that computes a summary from the records and the journals: both throw
-- the same error, or both return the same summary, and the tables hold this summary as that of a
-- completed run under the id that is returned.
pub store_provider_window-refines :
    (provider : Text) (window_start window_end : ℕ) (rs : List ProviderRecord)
    (journals : List Journal) (s : Records)
    → IsUnused s
    → Represents
        (store_provider_window provider window_start window_end rs journals s)
        (reconcile_provider_window provider window_start window_end rs journals)
unfolding store_provider_window reconcile_provider_window
store_provider_window-refines provider window_start window_end rs journals s v =
    after (refuse (is_blank provider) provider_required) _ _ (
      after (guard (ltb window_start window_end) window_invalid) _ _ (
        after (check_records [] rs) _ _
          (store_window-Represents provider window_start window_end rs journals s v)))
