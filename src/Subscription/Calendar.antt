-- ===== src/Subscription/Calendar.antt =====
-- JavaScript's dates in UTC, from 1970 on, and `addBillingPeriod` (services/subscription.service.ts).
use mduara_api.Prelude.{
  ℕ, ◌+◌, ◌-◌, ◌*◌, ◌/◌, ◌%◌, Bool, ◌&&◌, ◌||◌, not, ltb, leb, ◌==◌, if◌then◌else◌,
}

pub record Day : Type 0 where
  pub year : ℕ
  pub month : ℕ
  pub day : ℕ

-- Days are counted from the first of March of the year 0: a leap day is the last one of its year.
abbrev pub month_of : ℕ → ℕ
month_of shifted = if ltb shifted 10 then shifted + 3 else shifted - 9

abbrev pub day_in : ℕ → ℕ → Day
day_in era day_of_era =
    let year = (day_of_era - day_of_era / 1460 + day_of_era / 36524 - day_of_era / 146096) / 365 in
    let day_of_year = day_of_era - (365 * year + year / 4 - year / 100) in
    let shifted = (5 * day_of_year + 2) / 153 in
    let month = month_of shifted in
    record {
      year = if leb month 2 then year + era * 400 + 1 else year + era * 400;
      month = month;
      day = day_of_year - (153 * shifted + 2) / 5 + 1;
    }

-- The calendar day of a day number (0 is the first of January 1970).
abbrev pub day_of : ℕ → Day
day_of number = day_in ((number + 719468) / 146097) ((number + 719468) % 146097)

abbrev pub number_in : ℕ → ℕ → ℕ → ℕ
number_in year shifted day =
    let day_of_year = (153 * shifted + 2) / 5 + day - 1 in
    let day_of_era = 365 * (year % 400) + (year % 400) / 4 - (year % 400) / 100 + day_of_year in
    year / 400 * 146097 + day_of_era - 719468

-- The day number of a calendar day.
abbrev pub number_of : Day → ℕ
number_of d =
    number_in (if leb d.month 2 then d.year - 1 else d.year)
      (if ltb 2 d.month then d.month - 3 else d.month + 9) d.day

abbrev pub is_leap : ℕ → Bool
is_leap year = year % 4 == 0 && (not (year % 100 == 0) || year % 400 == 0)

-- `new Date(Date.UTC(year, month, 0)).getUTCDate()`
abbrev pub last_day : ℕ → ℕ → ℕ
last_day year month =
    if month == 2
    then (if is_leap year then 29 else 28)
    else if month == 4 || month == 6 || month == 9 || month == 11
    then 30
    else 31

pub data Frequency : Type 0 where
  monthly annual : Frequency

-- The first day of the month that the period ends in.
abbrev pub next_month : Frequency → Day → Day
next_month monthly d =
    if d.month == 12
    then record { year = d.year + 1; month = 1; day = 1 }
    else record { year = d.year; month = d.month + 1; day = 1 }
next_month annual d = record { year = d.year + 1; month = d.month; day = 1 }

-- The same day of that month, or its last one.
abbrev pub clamped : ℕ → Day → Day
clamped day next = record next {
  day = if ltb (last_day next.year next.month) day then last_day next.year next.month else day;
}

abbrev pub ms_per_day : ℕ
ms_per_day = 86_400_000

-- `addBillingPeriod`: times are milliseconds.
unfoldable pub add_billing_period : ℕ → Frequency → ℕ
add_billing_period start frequency =
    let original = day_of (start / ms_per_day) in
    number_of (clamped original.day (next_month frequency original)) * ms_per_day
    + start % ms_per_day
