-- ===== src/Transaction/Rollback.antt =====
-- What a transaction commits (db/transaction.ts).
use mduara_api.Prelude.{ℕ, zero, suc, ◌+◌, ◌<◌, ◌≡◌, refl, true, Option, none, some, arith}
use mduara_api.Prelude.Text.{Text}
use mduara_api.Prelude.Outcome.{Outcome, ok, err}
use mduara_api.Transaction.Work.{Work}
use mduara_api.Transaction.Retries.{
  Attempt, End, returned, failed, unconnected, run_attempt, outcome, is_retryable, end_of, IsLast,
  loop-ends, transaction, with_database_transaction, finish, begin_work, connect_first,
}

module _ {S E A : Type 0} where
  -- What the other transactions alone have committed when the work of the attempt `n` places after
  -- the first one begins.
  abbrev pub seen : ℕ → ℕ → (ℕ → Attempt S E A) → S → S
  seen zero first attempts s = (attempts first).others s
  seen (suc n) first attempts s = seen n (first + 1) attempts ((attempts first).others s)

  -- A result is that of the work, with all that it wrote; with an error nothing is written.
  abbrev pub IsAllOrNothing : Work S E A → S → Outcome E A → S → Type 0
  IsAllOrNothing work before (ok result) after = work before ≡ (ok result, after)
  IsAllOrNothing work before (err failure) after = after ≡ before

  finish-IsAllOrNothing :
      (commit : Option E) (work : Work S E A) (before : S) (done : Outcome E A × S)
      → work before ≡ done
      → IsAllOrNothing work before
          (outcome (finish commit done before).0)
          (finish commit done before).1
  finish-IsAllOrNothing commit work before (err failure, written) h = refl
  finish-IsAllOrNothing (some failure) work before (ok result, written) h = refl
  finish-IsAllOrNothing none work before (ok result, written) h = h

  begin_work-IsAllOrNothing :
      (begin : Option E) (a : Attempt S E A) (before : S)
      → IsAllOrNothing a.work before
          (outcome (begin_work begin a before).0)
          (begin_work begin a before).1
  begin_work-IsAllOrNothing (some failure) a before = refl
  begin_work-IsAllOrNothing none a before =
      finish-IsAllOrNothing a.commit a.work before (a.work before) refl

  connect_first-IsAllOrNothing :
      (connect : Option E) (a : Attempt S E A) (before : S)
      → IsAllOrNothing a.work before
          (outcome (connect_first connect a before).0)
          (connect_first connect a before).1
  connect_first-IsAllOrNothing (some failure) a before = refl
  connect_first-IsAllOrNothing none a before = begin_work-IsAllOrNothing a.begin a before

  run_attempt-IsAllOrNothing :
      (a : Attempt S E A) (s : S)
      → IsAllOrNothing a.work (a.others s) (outcome (run_attempt a s).0) (run_attempt a s).1
  unfolding run_attempt
  run_attempt-IsAllOrNothing a s = connect_first-IsAllOrNothing a.connect a (a.others s)

module _ {S E A : Type 0} (code : E → Option Text) where
  -- What is retried wrote nothing.
  retried-unchanged :
      (a : Attempt S E A) (s : S)
      → is_retryable code (run_attempt a s).0 ≡ true
      → (run_attempt a s).1 ≡ a.others s
  retried-unchanged a s again =
      go (run_attempt a s).0 (run_attempt a s).1 again (run_attempt-IsAllOrNothing a s)
    where
      go :
          (end : End E A) (after : S)
          → is_retryable code end ≡ true
          → IsAllOrNothing a.work (a.others s) (outcome end) after
          → after ≡ a.others s
      go (returned result) after again h = cc
      go (failed failure) after again h = h
      go (unconnected failure) after again h = cc

  end_of-IsAllOrNothing :
      (n first : ℕ) (attempts : ℕ → Attempt S E A) (s : S)
      → ((k : ℕ) → k < n → is_retryable code (end_of k first attempts s).0 ≡ true)
      → IsAllOrNothing
          (attempts (first + n)).work
          (seen n first attempts s)
          (outcome (end_of n first attempts s).0)
          (end_of n first attempts s).1
  end_of-IsAllOrNothing zero first attempts s retried =
      let start : first + 0 ≡ first = omega arith in
      rw start (run_attempt-IsAllOrNothing (attempts first) s)
  end_of-IsAllOrNothing (suc n) first attempts s retried =
      let same = retried-unchanged (attempts first) s (retried 0 (omega arith)) in
      let shift : first + suc n ≡ first + 1 + n = omega arith in
      rw (shift, ← same)
        (end_of-IsAllOrNothing n (first + 1) attempts (run_attempt (attempts first) s).1
          λ k h. retried (suc k) (omega arith))

  -- A transaction returns or throws: of its attempts, at most `max_retries + 1`, all but the last one
  -- failed with a serialization failure or a deadlock and were retried; the last one is not retried
  -- since its end allows no retry or since no retry is left. If the transaction returns a result, it
  -- is the result of the work of the last attempt, run on what the other transactions alone had
  -- committed before it, and all that this work wrote is committed; if it throws, nothing is written.
  pub with_database_transaction-ends :
      (max_retries : ℕ) (attempts : ℕ → Attempt S E A) (s : S)
      → (n : ℕ) × (result : Outcome E A) × (after : S) × IsLast code max_retries 0 n attempts s
        × (with_database_transaction code max_retries attempts s ≡ some (result, after))
        × IsAllOrNothing (attempts n).work (seen n 0 attempts s) result after
  unfolding with_database_transaction
  with_database_transaction-ends max_retries attempts s =
      let (n, last, returns) =
        loop-ends code (max_retries + 1) 0 max_retries attempts s (omega arith) (omega arith) in
      let ended = end_of n 0 attempts s in
      let start : 0 + n ≡ n = omega arith in
      let whole = end_of-IsAllOrNothing n 0 attempts s last.retried in
      (n, outcome ended.0, ended.1, last, returns, rw start at whole)

finish-err :
    {S E A : Type 0} (done : Outcome E A × S) (before : S) {failure : E}
    → outcome (finish none done before).0 ≡ err failure
    → (finish none done before).1 ≡ before
finish-err (ok result, after) before h = cc
finish-err (err failure, after) before h = refl

-- A transaction that throws wrote nothing.
pub transaction-err :
    {S E A : Type 0} (work : Work S E A) (s : S) {failure : E}
    → (transaction work s).0 ≡ err failure
    → (transaction work s).1 ≡ s
unfolding transaction
transaction-err work s h = finish-err (work s) s h
