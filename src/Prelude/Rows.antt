-- ===== src/Prelude/Rows.antt =====
-- A table as the list of its rows, and what the SQL of the services does with it.
use Prim.Native.Nat.{ℕ, suc, ◌+◌, ◌≤◌}
use mathlib.Core.Path.{◌≡◌, refl}
use mathlib.Core.Bool.{Bool, true, false, ◌&&◌, ◌||◌}
use mathlib.Core.Logic.{inl, inr}
use mathlib.Core.Option
use mathlib.Core.Option.{Option, none, some}
use mathlib.Core.List.{List, [], ◌∷◌, ◌++◌}
use native.Mathlib.Omega.{arith}
use mduara_api.Prelude.Tests.{if◌then◌else◌, Bool-cases}

pub some_injective {ℓ} : {A : Type ℓ} {a b : A} → some a ≡ some b → a ≡ b
some_injective h = cc

module _ {ℓ} {A : Type ℓ} where
  abbrev pub length : List A → ℕ
  length [] = 0
  length (x ∷ xs) = suc (length xs)

  -- `rows[0]` of `SELECT … WHERE p`.
  abbrev pub find : (A → Bool) → List A → Option A
  find p [] = none
  find p (x ∷ xs) = if p x then some x else find p xs

  -- `SELECT 1 … WHERE p`, by its `rowCount`.
  abbrev pub any : (A → Bool) → List A → Bool
  any p [] = false
  any p (x ∷ xs) = p x || any p xs

  abbrev pub all : (A → Bool) → List A → Bool
  all p [] = true
  all p (x ∷ xs) = p x && all p xs

  -- `UPDATE … SET f WHERE p`.
  abbrev pub update_where : (A → Bool) → (A → A) → List A → List A
  update_where p f [] = []
  update_where p f (x ∷ xs) = (if p x then f x else x) ∷ update_where p f xs

  -- `COALESCE(SUM(f) FILTER (WHERE p), 0)`.
  abbrev pub sum_where : (A → Bool) → (A → ℕ) → List A → ℕ
  sum_where p f [] = 0
  sum_where p f (x ∷ xs) = (if p x then f x else 0) + sum_where p f xs

  -- `COUNT(*) FILTER (WHERE p)`.
  abbrev pub count_where : (A → Bool) → List A → ℕ
  count_where p [] = 0
  count_where p (x ∷ xs) = (if p x then 1 else 0) + count_where p xs

  pub length-append : (xs ys : List A) → length (xs ++ ys) ≡ length xs + length ys
  length-append [] ys = omega arith
  length-append (x ∷ xs) ys = omega (arith, length-append xs ys)

  pub sum_where-append :
      (p : A → Bool) (f : A → ℕ) (xs ys : List A)
      → sum_where p f (xs ++ ys) ≡ sum_where p f xs + sum_where p f ys
  sum_where-append p f [] ys = omega arith
  sum_where-append p f (x ∷ xs) ys = omega (arith, sum_where-append p f xs ys)

  pub length-update_where :
      (p : A → Bool) (f : A → A) (xs : List A) → length (update_where p f xs) ≡ length xs
  length-update_where p f [] = refl
  length-update_where p f (x ∷ xs) = omega (arith, length-update_where p f xs)

  -- A search by a test that an update does not touch finds the same row, updated.
  pub find-update_where :
      (p q : A → Bool) (f : A → A) (keep : (x : A) → p (f x) ≡ p x) (xs : List A)
      → find p (update_where q f xs) ≡ Option.map (λ x. if q x then f x else x) (find p xs)
  find-update_where p q f keep [] = refl
  find-update_where p q f keep (x ∷ xs) = ground (arith, keep x, find-update_where p q f keep xs)

  -- What is found is updated, if the update leaves the test as it was.
  pub find-update_self :
      (p : A → Bool) (f : A → A) (keep : (x : A) → p (f x) ≡ p x) (xs : List A)
      → find p (update_where p f xs) ≡ Option.map f (find p xs)
  find-update_self p f keep [] = refl
  find-update_self p f keep (x ∷ xs) = ground (arith, keep x, find-update_self p f keep xs)

  pub find-true : (p : A → Bool) (xs : List A) {x : A} → find p xs ≡ some x → p x ≡ true
  find-true p [] h = cc
  find-true p (y ∷ xs) {x} h = elim (Bool-cases (p y)) [
    | inl e ↦ ground (arith, e)
    | inr e ↦ find-true p xs {x = x} (rw e at h)
  ]

  -- A row that is found is found again when more rows follow.
  pub find-append_some :
      (p : A → Bool) (xs ys : List A) {x : A} → find p xs ≡ some x → find p (xs ++ ys) ≡ some x
  find-append_some p [] ys h = cc
  find-append_some p (y ∷ xs) ys {x} h = elim (Bool-cases (p y)) [
    | inl e ↦ ground (arith, e, h)
    | inr e ↦ rw e (find-append_some p xs ys {x = x} (rw e at h))
  ]

  pub any-append : (p : A → Bool) (xs ys : List A) → any p (xs ++ ys) ≡ (any p xs || any p ys)
  any-append p [] ys = refl
  any-append p (x ∷ xs) ys = ground (arith, any-append p xs ys)

  pub count_where-append :
      (p : A → Bool) (xs ys : List A)
      → count_where p (xs ++ ys) ≡ count_where p xs + count_where p ys
  count_where-append p [] ys = omega arith
  count_where-append p (x ∷ xs) ys = omega (arith, count_where-append p xs ys)

  pub any-false_count : (p : A → Bool) (xs : List A) → any p xs ≡ false → count_where p xs ≡ 0
  any-false_count p [] h = refl
  any-false_count p (x ∷ xs) h = ground (arith, any-false_count p xs)

  pub any-true_count : (p : A → Bool) (xs : List A) → any p xs ≡ true → 1 ≤ count_where p xs
  any-true_count p [] h = cc
  any-true_count p (x ∷ xs) h = ground (arith, any-true_count p xs)
