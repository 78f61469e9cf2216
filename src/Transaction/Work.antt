-- ===== src/Transaction/Work.antt =====
-- The work of a transaction: statements that run one after the other on one connection. What they
-- wrote is in the state also when one of them throws; rolling it back is up to the transaction.
use mduara_api.Prelude.{Bool, true, false, Option, none, some}
use mduara_api.Prelude.Outcome.{Outcome, ok, err}

abbrev pub Work : Type 0 → Type 0 → Type 0 → Type 0
Work S E A = S → Outcome E A × S

module _ {S E : Type 0} where
  abbrev pub and_then : {A B : Type 0} → Outcome E A × S → (A → Work S E B) → Outcome E B × S
  and_then (err failure, s) next = (err failure, s)
  and_then (ok row, s) next = next row s

  infixl 5 ◌>>=◌
  abbrev pub ◌>>=◌ : {A B : Type 0} → Work S E A → (A → Work S E B) → Work S E B
  (work >>= next) s = and_then (work s) next

  infixl 5 ◌>>◌
  abbrev pub ◌>>◌ : {B : Type 0} → Work S E (Unit {0}) → Work S E B → Work S E B
  work >> rest = work >>= λ u. rest

  abbrev pub return : {A : Type 0} → A → Work S E A
  return row s = (ok row, s)

  abbrev pub throw : {A : Type 0} → E → Work S E A
  throw failure s = (err failure, s)

  -- A statement that only reads.
  abbrev pub select : {A : Type 0} → (S → A) → Work S E A
  select read s = (ok (read s), s)

  -- A statement that writes.
  abbrev pub write : (S → S) → Work S E (Unit {0})
  write change s = (ok tt, change s)

  -- `if (b) throw e;`
  abbrev pub throw_if : Bool → E → Work S E (Unit {0})
  throw_if true failure = throw failure
  throw_if false failure = return tt

  -- `if (!row) throw e;`
  abbrev pub required : {A : Type 0} → Option A → E → Work S E A
  required none failure = throw failure
  required (some row) failure = return row
