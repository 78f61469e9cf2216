-- ===== src/Transaction/Retries.antt =====
-- `withDatabaseTransaction` (db/transaction.ts): what it returns, and after how many attempts.
use mduara_api.Prelude.{
  ℕ, zero, suc, ◌+◌, ◌≤◌, ◌<◌, ◌≡◌, refl, Bool, true, false, ◌&&◌, ◌||◌, ◌⊎◌, inl, inr, Option,
  none, some, ltb, if◌then◌else◌, Bool-cases, arith,
}
use mduara_api.Prelude.Text.{Text, text_eq, codes}
use mduara_api.Prelude.Outcome.{Outcome, ok, err}
use mduara_api.Transaction.Work.{Work}

-- `RETRYABLE_TRANSACTION_CODES.has(code)`
abbrev pub is_retryable_code : Option Text → Bool
is_retryable_code none = false
is_retryable_code (some code) = text_eq code (codes "40001") || text_eq code (codes "40P01")

-- What one attempt meets: what other transactions have committed before it begins, and whether
-- connecting, `BEGIN` and `COMMIT` fail. `ROLLBACK` may fail too, without an effect. A `COMMIT` that
-- fails has committed nothing: a connection that is lost after the server has committed is left out.
pub record Attempt (S E A : Type 0) : Type 0 where
  pub others : S → S
  pub connect : Option E
  pub begin : Option E
  pub work : Work S E A
  pub commit : Option E

-- How an attempt ended: with a result, with an error inside the `try`, or without a connection.
pub data End (E A : Type 0) : Type 0 where
  returned : A → End E A
  failed : E → End E A
  unconnected : E → End E A

module _ {S E A : Type 0} where
  abbrev pub finish : Option E → Outcome E A × S → S → End E A × S
  finish commit (err failure, written) before = (failed failure, before)
  finish (some failure) (ok result, written) before = (failed failure, before)
  finish none (ok result, written) before = (returned result, written)

  abbrev pub begin_work : Option E → Attempt S E A → S → End E A × S
  begin_work (some failure) a before = (failed failure, before)
  begin_work none a before = finish a.commit (a.work before) before

  abbrev pub connect_first : Option E → Attempt S E A → S → End E A × S
  connect_first (some failure) a before = (unconnected failure, before)
  connect_first none a before = begin_work a.begin a before

  -- The body of the `for` loop up to `continue`: the state is the committed one.
  unfoldable pub run_attempt : Attempt S E A → S → End E A × S
  run_attempt a s = connect_first a.connect a (a.others s)

  -- How the attempt `n` places after the first one ends, and what is committed after it.
  abbrev pub end_of : ℕ → ℕ → (ℕ → Attempt S E A) → S → End E A × S
  end_of zero first attempts s = run_attempt (attempts first) s
  end_of (suc n) first attempts s = end_of n (first + 1) attempts (run_attempt (attempts first) s).1

module _ {E A : Type 0} where
  abbrev pub outcome : End E A → Outcome E A
  outcome (returned result) = ok result
  outcome (failed failure) = err failure
  outcome (unconnected failure) = err failure

module _ {E A : Type 0} (code : E → Option Text) where
  abbrev pub is_retryable : End E A → Bool
  is_retryable (returned result) = false
  is_retryable (failed failure) = is_retryable_code (code failure)
  is_retryable (unconnected failure) = false

module _ {S E A : Type 0} (code : E → Option Text) where
  -- The `for` loop, on fuel; `none` means that the fuel ran out.
  unfoldable pub loop : ℕ → ℕ → ℕ → (ℕ → Attempt S E A) → S → Option (Outcome E A × S)
  unfolding run_attempt
  loop zero attempt max_retries attempts s = none
  loop (suc fuel) attempt max_retries attempts s =
      let ended = run_attempt (attempts attempt) s in
      let rest = loop fuel (attempt + 1) max_retries attempts ended.1 in
      if ltb attempt max_retries && is_retryable code ended.0
      then rest
      else some (outcome ended.0, ended.1)

  unfoldable pub with_database_transaction : ℕ → (ℕ → Attempt S E A) → S → Option (Outcome E A × S)
  with_database_transaction max_retries = loop (max_retries + 1) 0 max_retries

  -- `n` attempts are retried, and the one after them is the last.
  pub record IsLast (max_retries first n : ℕ) (attempts : ℕ → Attempt S E A) (s : S) : Type 0 where
    pub in_bounds : first + n ≤ max_retries
    pub retried : (k : ℕ) → k < n → is_retryable code (end_of k first attempts s).0 ≡ true
    pub final :
        (first + n ≡ max_retries) ⊎ (is_retryable code (end_of n first attempts s).0 ≡ false)

  IsLast-again :
      (max_retries first n : ℕ) (attempts : ℕ → Attempt S E A) (s : S)
      → is_retryable code (run_attempt (attempts first) s).0 ≡ true
      → IsLast max_retries (first + 1) n attempts (run_attempt (attempts first) s).1
      → IsLast max_retries first (suc n) attempts s
  IsLast-again max_retries first n attempts s again last = record {
    in_bounds = omega (arith, last.in_bounds);
    retried = earlier;
    final = grind (arith, last.final);
  }
    where
      earlier : (k : ℕ) → k < suc n → is_retryable code (end_of k first attempts s).0 ≡ true
      earlier zero h = again
      earlier (suc k) h = last.retried k (omega arith)

  IsLast-over :
      (max_retries first : ℕ) (attempts : ℕ → Attempt S E A) (s : S)
      → first ≤ max_retries
      → (ltb first max_retries && is_retryable code (run_attempt (attempts first) s).0) ≡ false
      → IsLast max_retries first 0 attempts s
  IsLast-over max_retries first attempts s low over = record {
    in_bounds = omega (arith, low);
    retried = λ k h. absurd (omega arith);
    final = ground (arith, over, low);
  }

  pub loop-ends :
      (fuel first max_retries : ℕ) (attempts : ℕ → Attempt S E A) (s : S)
      → first ≤ max_retries
      → max_retries < first + fuel
      → (n : ℕ) × IsLast max_retries first n attempts s
        × (loop fuel first max_retries attempts s
            ≡ some (outcome (end_of n first attempts s).0, (end_of n first attempts s).1))
  unfolding loop
  loop-ends zero first max_retries attempts s low enough = absurd (omega arith)
  loop-ends (suc fuel) first max_retries attempts s low enough =
      let ended = run_attempt (attempts first) s in
      elim (Bool-cases (ltb first max_retries && is_retryable code ended.0)) [
        | inl again ↦
            let (n, last, returns) =
              loop-ends fuel (first + 1) max_retries attempts ended.1 (ground arith)
                (omega arith) in
            (
              suc n,
              IsLast-again max_retries first n attempts s (ground arith) last,
              rw again returns,
            )
        | inr over ↦ (0, IsLast-over max_retries first attempts s low over, rw over refl)
      ]

-- An attempt whose connection, `BEGIN` and `COMMIT` do not fail, while no other transaction commits.
abbrev pub quiet : {S E A : Type 0} → Work S E A → Attempt S E A
quiet work = record { others = λ s. s; connect = none; begin = none; work = work; commit = none }

-- A transaction that meets no other one: its result, and the committed state.
unfoldable pub transaction : {S E A : Type 0} → Work S E A → S → Outcome E A × S
transaction work s = let ended = finish none (work s) s in (outcome ended.0, ended.1)
