-- ===== src/Transaction/Tests.antt =====
-- A run of `withDatabaseTransaction` (db/transaction.ts): a deadlock, then a result.
use mduara_api.Prelude.{ℕ, zero, suc, ◌+◌, ◌≡◌, refl, none, some}
use mduara_api.Prelude.Text.{Text, codes}
use mduara_api.Prelude.Outcome.{Outcome, ok, err}
use mduara_api.Transaction.Work.{Work}
use mduara_api.Transaction.Retries.{Attempt, with_database_transaction, loop, run_attempt, IsLast}
use mduara_api.Transaction.Rollback.{IsAllOrNothing, seen, with_database_transaction-ends}

-- The state is a counter, and an error is its code.
abbrev increment : Work ℕ Text ℕ
increment n = (ok n, n + 1)

-- The first attempt writes before it is the victim of a deadlock.
abbrev deadlocked : Work ℕ Text ℕ
deadlocked n = (err (codes "40P01"), n + 5)

abbrev refused : Work ℕ Text ℕ
refused n = (err (codes "23505"), n + 5)

abbrev with_work : Work ℕ Text ℕ → Attempt ℕ Text ℕ
with_work work = record {
  others = λ n. n + 10;
  connect = none;
  begin = none;
  work = work;
  commit = none;
}

abbrev attempts : ℕ → Attempt ℕ Text ℕ
attempts zero = with_work deadlocked
attempts (suc n) = with_work increment

second_attempt_commits :
    with_database_transaction (λ code. some code) 2 attempts 0 ≡ some (ok 20, 21)
unfolding with_database_transaction loop run_attempt
second_attempt_commits = refl

no_retry_left :
    with_database_transaction (λ code. some code) 0 attempts 0 ≡ some (err (codes "40P01"), 10)
unfolding with_database_transaction loop run_attempt
no_retry_left = refl

not_retryable :
    with_database_transaction (λ code. some code) 2 (λ n. with_work refused) 0
    ≡ some (err (codes "23505"), 10)
unfolding with_database_transaction loop run_attempt
not_retryable = refl

with_database_transaction-ends_example :
    (n : ℕ) × (result : Outcome Text ℕ) × (after : ℕ) × IsLast (λ code. some code) 2 0 n attempts 0
    × (with_database_transaction (λ code. some code) 2 attempts 0 ≡ some (result, after))
    × IsAllOrNothing (attempts n).work (seen n 0 attempts 0) result after
with_database_transaction-ends_example =
    with_database_transaction-ends (λ code. some code) 2 attempts 0
