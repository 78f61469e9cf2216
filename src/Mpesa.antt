-- ===== src/Mpesa.antt =====
-- The parts of a Safaricom Daraja B2C result that services/loan.service.ts and
-- services/mgr.service.ts read, and how they parse the amount.
use mduara_api.Prelude.{
  ℕ, ◌+◌, ◌-◌, ◌*◌, Bool, true, false, ◌&&◌, Option, none, some, [], ◌∷◌, leb, ◌==◌, if◌then◌else◌,
}
use mduara_api.Prelude.Int.{ℤ, pos}
use mduara_api.Prelude.Text.{Text, trim, is_empty}

-- A result parameter: absent or empty, a number (its integral part), a text, or anything else.
pub data ProviderValue : Type 0 where
  missing other : ProviderValue
  number : ℤ → ProviderValue
  text : Text → ProviderValue

-- The `Result` object, with the three parameters that are read.
pub record B2cResult : Type 0 where
  pub conversation_id : Option Text
  pub result_code : Option ℤ
  pub transaction_id : Option Text
  pub receipt_parameter : Option Text
  pub transaction_parameter : Option Text
  pub amount_parameter : ProviderValue

abbrev pub is_digit : ℕ → Bool
is_digit c = leb b'0' c && leb c b'9'

-- `(?:\.0+)?$`, once the digits are read.
abbrev pub all_zeros : Text → Bool
all_zeros [] = true
all_zeros (c ∷ s) = c == b'0' && all_zeros s

abbrev pub is_fraction : Text → Bool
is_fraction [] = true
is_fraction (c ∷ []) = false
is_fraction (c ∷ d ∷ s) = c == b'.' && d == b'0' && all_zeros s

-- The digits of `^\d+(?:\.0+)?$` from the second on, with the number read so far.
abbrev pub read_digits : ℕ → Text → Option ℕ
read_digits n [] = some n
read_digits n (c ∷ s) =
    let rest = read_digits (n * 10 + (c - b'0')) s in
    if is_digit c then rest else if is_fraction (c ∷ s) then some n else none

-- A text that matches `^\d+(?:\.0+)?$`, as the number before its point.
unfoldable pub parse_whole_amount : Text → Option ℕ
parse_whole_amount [] = none
parse_whole_amount (c ∷ s) =
    let rest = read_digits (c - b'0') s in if is_digit c then rest else none

abbrev to_ℤ : Option ℕ → Option ℤ
to_ℤ none = none
to_ℤ (some n) = some (pos n)

-- `parseProviderAmount` of services/loan.service.ts: what it cannot read counts as absent.
unfoldable pub parse_provider_amount : ProviderValue → Option ℤ
unfolding parse_whole_amount
parse_provider_amount missing = none
parse_provider_amount other = none
parse_provider_amount (number z) = some z
parse_provider_amount (text t) = to_ℤ (parse_whole_amount (trim t))

abbrev pub trim_or_empty : Option Text → Text
trim_or_empty none = []
trim_or_empty (some t) = trim t

-- `parameters.TransactionReceipt ?? parameters.TransactionID ?? ''`, trimmed.
abbrev pub parameter_transaction : Option Text → Option Text → Text
parameter_transaction (some receipt) t = trim receipt
parameter_transaction none t = trim_or_empty t

-- `TransactionID?.trim() || …`: empty if neither is given.
unfoldable pub transaction_id_of : B2cResult → Text
transaction_id_of r =
    let own = trim_or_empty r.transaction_id in
    if is_empty own then parameter_transaction r.receipt_parameter r.transaction_parameter else own
