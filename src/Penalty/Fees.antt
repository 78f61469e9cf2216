-- ===== src/Penalty/Fees.antt =====
-- The calculations of services/financial-math.ts; nothing where the source throws.
use mduara_api.Prelude.{
  ℕ, suc, ◌+◌, ◌*◌, ◌/◌, ◌-◌, Option, none, some, [], ◌∷◌, ◌==◌, if◌then◌else◌,
}
use mathlib.Core.Option
use mduara_api.Prelude.Int.{ℤ, pos, negsuc}
use mduara_api.Prelude.Text.{Text}
use mduara_api.Mpesa.{is_digit}

abbrev pub digit : ℕ → ℕ
digit c = c - b'0'

-- `\d{1,2}$`, padded to two digits.
abbrev pub read_fraction : Text → Option ℕ
read_fraction [] = none
read_fraction (c ∷ []) = if is_digit c then some (digit c * 10) else none
read_fraction (c ∷ d ∷ []) =
    let low = if is_digit d then some (digit c * 10 + digit d) else none in
    if is_digit c then low else none
read_fraction (c ∷ d ∷ e ∷ s) = none

abbrev pub add_hundreds : ℕ → Option ℕ → Option ℕ
add_hundreds n none = none
add_hundreds n (some m) = some (n * 100 + m)

-- The rest of `^\d+(?:\.\d{1,2})?$` after its first digit, with the number read so far.
abbrev pub read_percentage : ℕ → Text → Option ℕ
read_percentage n [] = some (n * 100)
read_percentage n (c ∷ s) =
    let rest = read_percentage (n * 10 + digit c) s in
    let fraction = add_hundreds n (read_fraction s) in
    if is_digit c then rest else if c == b'.' then fraction else none

-- A percentage as hundredths of a per cent.
unfoldable pub basis_points : Text → Option ℕ
basis_points [] = none
basis_points (c ∷ s) = let rest = read_percentage (digit c) s in if is_digit c then rest else none

unfoldable pub percentage_fee : ℤ → Text → Option ℕ
percentage_fee (pos amount) percentage =
    Option.map (λ points. (amount * points + 9999) / 10000) (basis_points percentage)
percentage_fee (negsuc amount) percentage = none

pub data FeeType : Type 0 where
  flat percentage : FeeType

-- `BigInt(flatFee)`, of a column that holds an integer.
abbrev pub flat_fee : ℤ → Option ℕ
flat_fee (pos n) = some n
flat_fee (negsuc n) = none

abbrev pub fee_of : FeeType → ℕ → ℤ → Text → Option ℕ
fee_of flat unpaid fee rate = flat_fee fee
fee_of percentage unpaid fee rate = percentage_fee (pos unpaid) rate

unfoldable pub contribution_penalty : ℤ → FeeType → ℤ → Text → Option ℕ
unfolding percentage_fee
contribution_penalty (pos (suc n)) fee_type fee rate = fee_of fee_type (suc n) fee rate
contribution_penalty unpaid fee_type fee rate = some 0
