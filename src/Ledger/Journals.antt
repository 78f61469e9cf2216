-- ===== src/Ledger/Journals.antt =====
-- Journals that move no treasury: accrued charges (services/charge-ledger.service.ts), and the
-- insert that they share with the commitments.
use mduara_api.Prelude.{
  ℕ, suc, Option, none, some, List, [], ◌∷◌, ◌++◌, ◌≡◌, refl, arith, inl, inr, Option-cases,
}
use mduara_api.Prelude.Int.{ℤ, pos}
use mduara_api.Prelude.Text.{Text}
use mduara_api.Prelude.Outcome.{Outcome, ok, err, ◌>>=◌}
use mduara_api.Ledger.Types.{
  Account, member_penalty_receivable, penalty_income, member_interest_receivable, interest_income,
  debit, credit, OperationType, contribution_penalty, loan_interest, Entry, Transaction, Ledger,
  Failure, charge_not_positive, unique_violation,
}
use mduara_api.Ledger.Operations.{find_reference, append_journal}

-- `INSERT INTO ledger_transactions … RETURNING id` and its entries: the reference is UNIQUE.
unfoldable pub insert_journal :
    OperationType → Text → Text → List Entry → Ledger → Outcome Failure (ℕ × Ledger)
insert_journal operation_type reference currency entries s =
    elim (find_reference reference s.transactions) [
      | some t ↦ err (unique_violation reference)
      | none ↦ ok (
        s.next_id,
        append_journal
            (record {
              id = s.next_id;
              operation_type = operation_type;
              reference = reference;
              initiated_by = none;
              currency = currency;
              entries = entries;
            })
            s,
      )
    ]

-- Both sides of a journal between two accounts of one chama.
abbrev pub two_entries : ℕ → Option ℕ → Account → Option ℕ → Account → ℕ → List Entry
two_entries chama_id debit_member debit_account credit_member credit_account amount =
    record {
      chama_id = chama_id;
      member_id = debit_member;
      account = debit_account;
      side = debit;
      amount = amount;
    }
    ∷ record {
      chama_id = chama_id;
      member_id = credit_member;
      account = credit_account;
      side = credit;
      amount = amount;
    }
    ∷ []

pub data ChargeKind : Type 0 where
  penalty interest : ChargeKind

pub record Charge : Type 0 where
  pub kind : ChargeKind
  pub reference : Text
  pub chama_id : ℕ
  pub member_id : ℕ
  pub amount : ℤ
  pub currency : Text

abbrev pub charge_type : ChargeKind → OperationType
charge_type penalty = contribution_penalty
charge_type interest = loan_interest

abbrev pub receivable_account : ChargeKind → Account
receivable_account penalty = member_penalty_receivable
receivable_account interest = member_interest_receivable

abbrev pub income_account : ChargeKind → Account
income_account penalty = penalty_income
income_account interest = interest_income

-- `if (charge.amount <= 0n) throw …`, and the amount.
abbrev pub positive_charge : ℤ → Outcome Failure ℕ
positive_charge (pos (suc n)) = ok (suc n)
positive_charge _ = err charge_not_positive

unfoldable pub record_member_charge : Charge → Ledger → Outcome Failure (ℕ × Ledger)
unfolding insert_journal
record_member_charge c s = do
  n ← positive_charge c.amount
  insert_journal (charge_type c.kind) c.reference c.currency
      (two_entries c.chama_id (some c.member_id) (receivable_account c.kind) none
        (income_account c.kind) n)
      s

-- An insert that succeeds has appended one journal with these entries, and moved no treasury.
pub insert_journal-appends :
    (operation_type : OperationType) (reference currency : Text) (entries : List Entry) (s : Ledger)
    {i : ℕ} {s' : Ledger}
    → insert_journal operation_type reference currency entries s ≡ ok (i, s')
    → (t : Transaction) × (t.entries ≡ entries)
      × (t.reference ≡ reference)
      × (i ≡ s.next_id)
      × (find_reference reference s.transactions ≡ none)
      × (s'.transactions ≡ s.transactions ++ t ∷ [])
      × (s'.chamas ≡ s.chamas)
unfolding insert_journal
insert_journal-appends operation_type reference currency entries s h =
    elim (Option-cases (find_reference reference s.transactions)) [
      | inl e ↦ (
        record {
          id = s.next_id;
          operation_type = operation_type;
          reference = reference;
          initiated_by = none;
          currency = currency;
          entries = entries;
        },
        refl,
        refl,
        ground (arith, e),
        e,
        ground (arith, e),
        ground (arith, e),
      )
      | inr (t, e) ↦ absurd (ground (arith, e))
    ]
