-- ===== src/Payment/Values.antt =====
-- How services/payment.service.ts reads phone numbers and the metadata of a callback.
use mduara_api.Prelude.{
  ℕ, zero, suc, ◌+◌, ◌-◌, ◌*◌, ◌/◌, ◌%◌, Bool, false, ◌&&◌, ◌||◌, Option, none, some, List, [], ◌∷◌,
  ◌++◌, length, ltb, leb, ◌==◌, if◌then◌else◌,
}
use mduara_api.Prelude.Int.{ℤ, pos, negsuc, neg}
use mduara_api.Prelude.Text.{Text, text_eq, codes, trim}
use mduara_api.Prelude.Outcome.{Outcome, ok, err}
use mduara_api.Mpesa.{is_digit}
use mduara_api.Payment.Types.{
  MetaValue, text, number, fraction, Failure, phone_invalid, unreadable_number,
}

-- `phone.replace(/\D/g, '')`
abbrev pub digits_of : Text → Text
digits_of [] = []
digits_of (c ∷ s) = let rest = digits_of s in if is_digit c then c ∷ rest else rest

abbrev pub is_mobile : ℕ → Bool
is_mobile c = c == b'7' || c == b'1'

-- `^[71]\d{8}$`
abbrev pub is_short : Text → Bool
is_short [] = false
is_short (c ∷ s) = is_mobile c && length s == 8

abbrev pub is_local : Text → Bool
is_local [] = false
is_local (c ∷ s) = c == b'0' && is_short s

abbrev pub is_international : Text → Bool
is_international (a ∷ b ∷ c ∷ s) = a == b'2' && b == b'5' && c == b'4' && is_short s
is_international _ = false

abbrev pub without_first : Text → Text
without_first [] = []
without_first (c ∷ s) = s

-- `normalizeKenyanPhone`, on the digits.
abbrev pub normalize_digits : Text → Outcome Failure Text
normalize_digits digits =
    if is_international digits
    then ok digits
    else if is_local digits
    then ok (codes "254" ++ without_first digits)
    else if is_short digits
    then ok (codes "254" ++ digits)
    else err phone_invalid

unfoldable pub normalize_kenyan_phone : Text → Outcome Failure Text
normalize_kenyan_phone phone = normalize_digits (digits_of phone)

-- `Object.fromEntries`: the last item of a name counts.
abbrev pub metadata : Text → List (Text × MetaValue) → Option MetaValue
metadata name [] = none
metadata name ((key, value) ∷ items) =
    let rest = metadata name items in
    elim rest [ some v ↦ some v | none ↦ if text_eq key name then some value else none ]

-- The digits of a number, before those of `tail`.
abbrev pub decimal : ℕ → ℕ → Text → Text
decimal zero n tail = tail
decimal (suc fuel) n tail =
    let more = decimal fuel (n / 10) ((n % 10 + b'0') ∷ tail) in
    if ltb n 10 then (n + b'0') ∷ tail else more

-- `String(value ?? '')`
abbrev pub value_text : Option MetaValue → Text
value_text none = []
value_text (some (text t)) = t
value_text (some (fraction t)) = t
value_text (some (number (pos n))) = decimal (n + 1) n []
value_text (some (number (negsuc n))) = b'-' ∷ decimal (n + 2) (n + 1) []

-- The value of a digit in a radix.
abbrev pub digit_value : ℕ → Option ℕ
digit_value c =
    if is_digit c
    then some (c - b'0')
    else if leb b'a' c && leb c b'f'
    then some (c - b'a' + 10)
    else if leb b'A' c && leb c b'F'
    then some (c - b'A' + 10)
    else none

abbrev pub read_radix : ℕ → ℕ → Text → Option ℕ
read_radix radix n [] = some n
read_radix radix n (c ∷ s) = elim (digit_value c) [
  | none ↦ none
  | some d ↦ let rest = read_radix radix (n * radix + d) s in if ltb d radix then rest else none
]

abbrev pub non_empty : ℕ → Text → Option ℕ
non_empty radix [] = none
non_empty radix (c ∷ s) = read_radix radix 0 (c ∷ s)

abbrev pub signed : (ℕ → ℤ) → Option ℕ → Outcome Failure ℤ
signed sign none = err unreadable_number
signed sign (some n) = ok (sign n)

-- `0x`, `0o` and `0b`, which take no sign.
abbrev pub prefixed : ℕ → Text → Outcome Failure ℤ
prefixed c s =
    if c == b'x' || c == b'X'
    then signed pos (non_empty 16 s)
    else if c == b'o' || c == b'O'
    then signed pos (non_empty 8 s)
    else if c == b'b' || c == b'B'
    then signed pos (non_empty 2 s)
    else signed pos (read_radix 10 0 (b'0' ∷ c ∷ s))

abbrev pub read_integer : Text → Outcome Failure ℤ
read_integer [] = ok (pos 0)
read_integer (c ∷ []) = signed pos (read_radix 10 0 (c ∷ []))
read_integer (c ∷ d ∷ s) =
    if c == b'-'
    then signed (λ n. neg (pos n)) (non_empty 10 (d ∷ s))
    else if c == b'+'
    then signed pos (non_empty 10 (d ∷ s))
    else if c == b'0'
    then prefixed d s
    else signed pos (read_radix 10 0 (c ∷ d ∷ s))

-- `BigInt(value)` of a text.
unfoldable pub big_int : Text → Outcome Failure ℤ
big_int s = read_integer (trim s)

abbrev pub or_zero : Option MetaValue → Text
or_zero none = codes "0"
or_zero (some value) = value_text (some value)
