-- ===== src/Prelude/Outcome.antt =====
-- A database transaction, or a step of one: its result and the new state, or the error that was
-- thrown, after which the transaction is rolled back.
use mathlib.Core.Path.{◌≡◌, refl}
use mathlib.Core.Logic.{◌⊎◌, inl, inr}
use mathlib.Core.Bool.{Bool, true, false, not}
use mathlib.Core.Option.{Option, none, some}

pub data Outcome {ℓ} (E : Type 0) (A : Type ℓ) : Type ℓ where
  ok : A → Outcome E A
  err : E → Outcome E A

module _ {E : Type 0} where
  -- `if (b) throw e;`
  abbrev pub refuse : Bool → E → Outcome E (Unit {0})
  refuse false failure = ok tt
  refuse true failure = err failure

  -- `if (!row) throw e;`
  abbrev pub require {ℓ} : {A : Type ℓ} → Option A → E → Outcome E A
  require (some row) failure = ok row
  require none failure = err failure

  -- What is thrown passes the next step by.
  infixl 5 ◌>>=◌
  abbrev pub ◌>>=◌ {ℓ κ} : {A : Type ℓ} {B : Type κ} → Outcome E A → (A → Outcome E B) → Outcome E B
  err failure >>= next = err failure
  ok row >>= next = next row

  pub Outcome-cases {ℓ} :
      {A : Type ℓ} (o : Outcome E A) → ((e : E) × (o ≡ err e)) ⊎ ((a : A) × (o ≡ ok a))
  Outcome-cases (err failure) = inl (failure, refl)
  Outcome-cases (ok row) = inr (row, refl)

  infixl 5 ◌>>◌
  abbrev pub ◌>>◌ {ℓ} : {B : Type ℓ} → Outcome E (Unit {0}) → Outcome E B → Outcome E B
  step >> rest = step >>= λ u. rest

  -- Two steps that return: the first one returned what the second one went on from.
  pub >>=-eq-ok {ℓ κ} :
      {A : Type ℓ} {B : Type κ} (first : Outcome E A) (next : A → Outcome E B) {result : B}
      → (first >>= next) ≡ ok result
      → (row : A) × (first ≡ ok row) × (next row ≡ ok result)
  >>=-eq-ok (err failure) next returned = cc
  >>=-eq-ok (ok row) next returned = (row, refl, returned)

  -- `if (!b) throw e;`
  abbrev pub guard : Bool → E → Outcome E (Unit {0})
  guard test failure = refuse (not test) failure

  pub ok-pair {ℓ κ} :
      {A : Type ℓ} {B : Type κ} {a c : A} {b d : B}
      → ◌≡◌ {A = Outcome E (A × B)} (ok (a, b)) (ok (c, d))
      → (a ≡ c) × (b ≡ d)
  ok-pair h = (cc, cc)

  pub refuse-false :
      (test : Bool) (failure : E) {u : Unit {0}} → refuse test failure ≡ ok u → test ≡ false
  refuse-false true failure h = cc
  refuse-false false failure h = refl

  pub guard-true :
      (test : Bool) (failure : E) {u : Unit {0}} → guard test failure ≡ ok u → test ≡ true
  guard-true true failure h = refl
  guard-true false failure h = cc

  pub require-some {ℓ} :
      {A : Type ℓ} (found : Option A) (failure : E) {row : A}
      → require found failure ≡ ok row
      → found ≡ some row
  require-some none failure h = cc
  require-some (some row) failure h = cc
