-- ===== src/ModelList/Calendar/Reference.antt =====
-- The Gregorian calendar by counting: the days of the years since 1970 and of the months before.
pub mod Closed
pub mod March
pub mod Range
pub mod Count
pub mod RoundTrip
pub mod Stamps
use free_claude_desktop.Prelude.{
  ℕ, zero, suc, ◌+◌, ◌-◌, ◌*◌, ◌/◌, ◌%◌, ◌≤◌, ◌<◌, ◌≡◌, refl, sym, ap, subst, ◌∙◌, ◌⊎◌, inl, inr,
  Bool, true, false, not, ◌&&◌, ◌||◌, Option, none, some, arith, ltb, leb, eqb, if◌then◌else◌,
  Bool-cases,
}
use free_claude_desktop.ModelList.Calendar.{
  Civil, year_of_era, day_of_year, month_from_march, day_of_month, month_of, year_final, in_range,
  days_from_civil,
}

abbrev pub is_leap : ℕ → Bool
is_leap y = eqb (y % 4) 0 && (not (eqb (y % 100) 0) || eqb (y % 400) 0)

-- The days of the first `n` years from 1970 on.
abbrev pub days_of_years : ℕ → ℕ
days_of_years zero = 0
days_of_years (suc n) = days_of_years n + (if is_leap (1970 + n) then 366 else 365)

abbrev pub february : ℕ → ℕ
february y = if is_leap y then 29 else 28

-- The days of the months 1, 2, ... 12, from those of February.
abbrev pub length_with : ℕ → ℕ → ℕ
length_with f m =
    if eqb m 2 then f else if eqb m 4 || eqb m 6 || eqb m 9 || eqb m 11 then 30 else 31

abbrev pub month_length : ℕ → ℕ → ℕ
month_length y m = length_with (february y) m

-- The days of the first `k` months.
abbrev pub days_of_months : ℕ → ℕ → ℕ
days_of_months y zero = 0
days_of_months y (suc k) = days_of_months y k + month_length y (suc k)

abbrev pub day_number : Civil → ℕ
day_number (y, m, d) = days_of_years (y - 1970) + days_of_months y (m - 1) + (d - 1)

pub record IsDate (y m d : ℕ) : Type 0 where
  pub year_from : 1970 ≤ y
  pub year_to : y ≤ 2099
  pub month_from : 1 ≤ m
  pub month_to : m ≤ 12
  pub day_from : 1 ≤ d
  pub day_to : d ≤ month_length y m
