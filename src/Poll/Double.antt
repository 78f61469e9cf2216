-- ===== src/Poll/Double.antt =====
-- JavaScript's numbers where the percentages of a poll need them: doubles that are not negative.
-- Counts of rows and percentages lie far inside the range of normal numbers.
use mduara_api.Prelude.{
  ℕ, zero, suc, ◌+◌, ◌*◌, ◌/◌, ◌%◌, ◌^◌, Bool, ltb, leb, ◌==◌, if◌then◌else◌, ◌||◌, ◌&&◌,
}

-- mantissa / 2 ^ shift
pub record Double : Type 0 where
  pub mantissa : ℕ
  pub shift : ℕ

-- Doubles `num` until num / den is at least 2 ^ 52, at most `fuel` times: 1074 is the largest
-- exponent of a double.
abbrev pub normalise : ℕ → ℕ → ℕ → ℕ → ℕ × ℕ
normalise zero num den shift = (num, shift)
normalise (suc fuel) num den shift =
    let more = normalise fuel (num * 2) den (shift + 1) in
    if ltb num (2 ^ 52 * den) then more else (num, shift)

-- A tie goes to the even mantissa.
abbrev pub nearest : ℕ → ℕ → ℕ
nearest num den =
    let quotient = num / den in
    let twice = 2 * (num % den) in
    if ltb den twice || twice == den && quotient % 2 == 1 then quotient + 1 else quotient

abbrev pub rounded : ℕ × ℕ → ℕ → Double
rounded (num, shift) den = record { mantissa = nearest num den; shift = shift }

-- The double next to num / den, for den > 0.
unfoldable pub double_of : ℕ → ℕ → Double
double_of num den =
    if num == 0 then record { mantissa = 0; shift = 0 } else rounded (normalise 1074 num den 0) den

-- `(votes / total) * 100`
unfoldable pub percentage : ℕ → ℕ → Double
unfolding double_of
percentage votes total =
    let ratio = double_of votes total in double_of (ratio.mantissa * 100) (2 ^ ratio.shift)

-- `a >= b`
unfoldable pub reaches : Double → Double → Bool
reaches a b = leb (b.mantissa * 2 ^ a.shift) (a.mantissa * 2 ^ b.shift)
