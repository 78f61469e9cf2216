-- ===== src/Ledger/Triggers.antt =====
-- The checks that the database makes on the ledger (migrations/001_initial_schema.sql), as tests,
-- and the totals of a treasury in the journals.
use mduara_api.Prelude.{
  ℕ, ◌+◌, ◌≡◌, Bool, true, false, ◌&&◌, Option, List, [], ◌∷◌, ◌++◌, arith, length, find, sum_where,
  any, leb, ◌==◌, if◌then◌else◌,
}
use mathlib.Core.Option
use mduara_api.Ledger.Types.{
  Account, chama_treasury, Side, debit, credit, Entry, Transaction, Chama,
}

abbrev pub is_debit : Side → Bool
is_debit debit = true
is_debit credit = false

abbrev pub is_credit : Side → Bool
is_credit debit = false
is_credit credit = true

abbrev pub is_treasury : Account → Bool
is_treasury chama_treasury = true
is_treasury _ = false

-- `assert_ledger_transaction_balanced`, which runs at COMMIT.
abbrev pub is_balanced : Transaction → Bool
is_balanced t =
    leb 2 (length t.entries)
    && sum_where (λ e. is_debit e.side) (λ e. e.amount) t.entries
      == sum_where (λ e. is_credit e.side) (λ e. e.amount) t.entries

-- `require_ledger_for_treasury_update`, for a change of a chama's pooled amount under journal `t`.
abbrev pub allows_update : Transaction → ℕ → ℕ → ℕ → Bool
allows_update t i old new =
    if old == new
    then true
    else any
        (λ e.
          e.chama_id == i
          && is_treasury e.account
          && (if leb old new
              then is_debit e.side && e.amount + old == new
              else is_credit e.side && e.amount + new == old))
        t.entries

-- The amounts of the entries that pass a test, in one journal and in all.
abbrev pub entry_total : (Entry → Bool) → List Entry → ℕ
entry_total p = sum_where p (λ e. e.amount)

abbrev pub journal_total : (Entry → Bool) → List Transaction → ℕ
journal_total p [] = 0
journal_total p (t ∷ ts) = entry_total p t.entries + journal_total p ts

pub journal_total-append :
    (p : Entry → Bool) (ts us : List Transaction)
    → journal_total p (ts ++ us) ≡ journal_total p ts + journal_total p us
journal_total-append p [] us = omega arith
journal_total-append p (t ∷ ts) us = omega (arith, journal_total-append p ts us)

-- The treasury entries of one chama on one side.
abbrev pub treasury_side : (Side → Bool) → ℕ → Entry → Bool
treasury_side side i e = e.chama_id == i && is_treasury e.account && side e.side

abbrev pub ledger_total : (Side → Bool) → ℕ → List Transaction → ℕ
ledger_total side i = journal_total (treasury_side side i)

abbrev pub pooled : ℕ → List Chama → Option ℕ
pooled i chamas = Option.map (λ c. c.pooled_amount) (find (λ c. c.id == i) chamas)
