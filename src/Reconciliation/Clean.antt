-- ===== src/Reconciliation/Clean.antt =====
-- What a reconciliation without mismatches says (services/ledger.service.ts).
use mduara_api.Prelude.{
  ℕ, ◌≤◌, ◌≡◌, refl, ◌∙◌, Bool, true, ◌||◌, Option, none, some, List, [], ◌∷◌, ◌++◌, map, length,
  count_where, arith, inl, inr, Bool-cases, ltb,
}
use mduara_api.Prelude.Int.{ℤ, pos, negsuc}
use mduara_api.Prelude.Text.{Text, text_eq, text_eq→eq, is_blank}
use mduara_api.Prelude.Outcome.{ok, >>=-eq-ok, guard, refuse}
use mduara_api.Ledger.Operations.{sort_keys, insert_key, currency_or_kes}
use mduara_api.Reconciliation.Window.{
  ProviderRecord, Journal, Candidate, Summary, provider_required, window_invalid, check_records,
  is_in, candidates, unique_texts, find_candidate, find_record, all_references, classify, item_of,
  is_matched, same_amount, reconcile_provider_window,
}

is_in-insert_key :
    (r k : Text) (ks : List Text) → is_in r (insert_key k ks) ≡ (text_eq k r || is_in r ks)
is_in-insert_key r k [] = refl
is_in-insert_key r k (j ∷ js) = ground (arith, is_in-insert_key r k js)

is_in-sort_keys : (r : Text) (ks : List Text) → is_in r (sort_keys ks) ≡ is_in r ks
is_in-sort_keys r [] = refl
is_in-sort_keys r (k ∷ ks) =
    ground (arith, is_in-insert_key r k (sort_keys ks), is_in-sort_keys r ks)

is_in-equal : (r t : Text) (ts : List Text) → text_eq t r ≡ true → is_in t ts ≡ is_in r ts
is_in-equal r t ts h = rw (text_eq→eq t r h) refl

is_in-unique_texts :
    (r : Text) (seen ts : List Text)
    → (is_in r (unique_texts seen ts) || is_in r seen) ≡ (is_in r ts || is_in r seen)
is_in-unique_texts r seen [] = refl
is_in-unique_texts r seen (t ∷ ts) = elim (Bool-cases (text_eq t r)) [
  | inl e ↦ ground (arith, e, is_in-unique_texts r (t ∷ seen) ts, is_in-equal r t seen e)
  | inr e ↦ ground (arith, e, is_in-unique_texts r (t ∷ seen) ts)
]

count_where-length {ℓ} : {A : Type ℓ} (p : A → Bool) (xs : List A) → count_where p xs ≤ length xs
count_where-length p [] = omega arith
count_where-length p (x ∷ xs) = ground (arith, count_where-length p xs)

same_amount-eq : (n : ℕ) (z : ℤ) → same_amount n z ≡ true → z ≡ pos n
same_amount-eq n (pos m) h = ground arith
same_amount-eq n (negsuc m) h = cc

-- Every row's status is `matched` when as many rows are matched as there are.
all_matched :
    (cs : List Candidate) (rs : List ProviderRecord) (refs : List Text) (r : Text)
    → length (map (item_of cs rs) refs)
      ≤ count_where (λ i. is_matched i.status) (map (item_of cs rs) refs)
    → is_in r refs ≡ true
    → is_matched (classify (find_candidate r cs) (find_record r rs)) ≡ true
all_matched cs rs [] r h i = cc
all_matched cs rs (t ∷ ts) r h i = elim (Bool-cases (text_eq t r)) [
  | inl e ↦
      rw (← text_eq→eq t r e)
        (ground (arith, h, count_where-length (λ i. is_matched i.status) (map (item_of cs rs) ts)))
  | inr e ↦
      all_matched cs rs ts r
        (ground (arith, h, count_where-length (λ i. is_matched i.status) (map (item_of cs rs) ts)))
        (ground (arith, e, i))
]

classify-matched :
    (o : Option Candidate) (p : Option ProviderRecord)
    → is_matched (classify o p) ≡ true
    → (c : Candidate) × (q : ProviderRecord) × (o ≡ some c)
      × (p ≡ some q)
      × (q.amount ≡ pos c.ledger_amount)
      × (c.ledger_currency ≡ currency_or_kes q.currency)
classify-matched none p h = cc
classify-matched (some c) none h = cc
classify-matched (some c) (some q) h = (
  c,
  q,
  refl,
  refl,
  same_amount-eq c.ledger_amount q.amount (ground (arith, h)),
  text_eq→eq c.ledger_currency (currency_or_kes q.currency) (ground (arith, h)),
)

-- When a reconciliation finds no mismatch, every reference that a record of the provider or a journal
-- of the window has is one of both, with the same amount and currency.
pub reconcile_provider_window-clean :
    (provider : Text) (window_start window_end : ℕ) (rs : List ProviderRecord)
    (journals : List Journal) {summary : Summary} (reference : Text)
    → reconcile_provider_window provider window_start window_end rs journals ≡ ok summary
    → summary.mismatched ≡ 0
    → is_in reference (
        map (λ c. c.reference) (candidates provider window_start window_end journals)
        ++ map (λ r. r.reference) rs)
      ≡ true
    → (c : Candidate) × (q : ProviderRecord) × (find_candidate reference
          (candidates provider window_start window_end journals)
        ≡ some c)
      × (find_record reference rs ≡ some q)
      × (q.amount ≡ pos c.ledger_amount)
      × (c.ledger_currency ≡ currency_or_kes q.currency)
unfolding reconcile_provider_window
reconcile_provider_window-clean provider window_start window_end rs journals reference h clean i =
    let cs = candidates provider window_start window_end journals in
    let refs = map (λ c. c.reference) cs ++ map (λ r. r.reference) rs in
    let (u, a, x) = >>=-eq-ok (refuse (is_blank provider) provider_required) _ h in
    let (v, b, y) = >>=-eq-ok (guard (ltb window_start window_end) window_invalid) _ x in
    let (w, d, z) = >>=-eq-ok (check_records [] rs) _ y in
    classify-matched (find_candidate reference cs) (find_record reference rs) (
      all_matched cs rs (all_references cs rs) reference (ground (arith, z, clean)) (
        is_in-sort_keys reference (unique_texts [] refs)
        ∙ ground (arith, i, is_in-unique_texts reference [] refs)))
