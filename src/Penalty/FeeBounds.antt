-- ===== src/Penalty/FeeBounds.antt =====
-- What the calculations of services/financial-math.ts come to.
use mduara_api.Prelude.{
  ℕ, zero, suc, ◌+◌, ◌*◌, ◌/◌, ◌≤◌, ◌<◌, ◌≡◌, refl, true, some, [], ◌∷◌, ◌++◌, arith, all,
}
use mduara_api.Prelude.Int.{ℤ, pos}
use mduara_api.Prelude.Text.{Text}
use mduara_api.Mpesa.{is_digit}
use mduara_api.Penalty.Fees.{digit, read_percentage, basis_points, percentage, contribution_penalty}

-- A penalty by percentage, at a rate that can be read, is the exact fee rounded up to a whole
-- shilling: never below it, and less than one shilling above it.
pub contribution_penalty-exact :
    (unpaid : ℕ) (fee : ℤ) (rate : Text) {points charged : ℕ}
    → basis_points rate ≡ some points
    → contribution_penalty (pos unpaid) percentage fee rate ≡ some charged
    → (unpaid * points ≤ charged * 10000) × (charged * 10000 < unpaid * points + 10000)
unfolding contribution_penalty
contribution_penalty-exact zero fee rate h e = (ground arith, ground arith)
contribution_penalty-exact (suc n) fee rate {points} {charged} h e =
    let q : (suc n * points + 9999) / 10000 ≡ charged = ground (arith, h, e) in
    (omega (arith, q), omega (arith, q))

times_le : (a b n : ℕ) → a ≤ b → a * n ≤ b * n
times_le a b zero h = ground arith
times_le a b (suc n) h = ground (arith, times_le a b n h)

-- At one rate, a greater debt has no smaller penalty.
pub contribution_penalty-monotone :
    (less more : ℕ) (fee : ℤ) (rate : Text) {points small large : ℕ}
    → basis_points rate ≡ some points
    → less ≤ more
    → contribution_penalty (pos less) percentage fee rate ≡ some small
    → contribution_penalty (pos more) percentage fee rate ≡ some large
    → small ≤ large
contribution_penalty-monotone less more fee rate {points} h le a b =
    let (l, m) = contribution_penalty-exact less fee rate h a in
    let (l', m') = contribution_penalty-exact more fee rate h b in
    omega (arith, m, l', times_le less more points le)

-- Decimal digits, most significant first.
abbrev pub value : ℕ → Text → ℕ
value n [] = n
value n (c ∷ s) = value (n * 10 + digit c) s

read_percentage-digits :
    (n : ℕ) (ds : Text) (rest : Text)
    → all is_digit ds ≡ true
    → read_percentage n (ds ++ rest) ≡ read_percentage (value n ds) rest
read_percentage-digits n [] rest h = refl
read_percentage-digits n (d ∷ ds) rest h =
    ground (arith, h, read_percentage-digits (n * 10 + digit d) ds rest)

-- What a NUMERIC(5,2) column prints, digits and two decimals, is read as its hundredths.
pub basis_points-decimal :
    (d : ℕ) (ds : Text) (a b : ℕ)
    → all is_digit (d ∷ ds) ≡ true
    → is_digit a ≡ true
    → is_digit b ≡ true
    → basis_points (d ∷ (ds ++ b'.' ∷ a ∷ b ∷ []))
      ≡ some (value 0 (d ∷ ds) * 100 + (digit a * 10 + digit b))
unfolding basis_points
basis_points-decimal d ds a b h ha hb =
    ground (arith, h, ha, hb, read_percentage-digits (digit d) ds (b'.' ∷ a ∷ b ∷ []))
