-- ===== src/ModelList/Calendar/Reference/Count.antt =====
-- The date that the program computes is the one that counting gives.
use free_claude_desktop.Prelude.{ℕ, ◌+◌, ◌≤◌, ◌<◌, ◌≡◌, ◌∙◌, some, arith}
use free_claude_desktop.ModelList.Calendar.{day_of_month, month_of, days_from_civil}
use free_claude_desktop.ModelList.Calendar.Reference.{day_number, IsDate}
use free_claude_desktop.ModelList.Calendar.Reference.Closed.{
  february_len, days_of_years-from, spring_months, spring_length,
}
use free_claude_desktop.ModelList.Calendar.Reference.March.{
  AtMarch, MonthDay, spring, january, after_january, shown, core, month_day,
}

at-IsDate :
    (z n doy m d : ℕ)
    → MonthDay doy m d
    → AtMarch z n doy
    → z < 47482
    → (y : ℕ) × (shown n m d ≡ some (y, m, d)) × IsDate y m d × (day_number (y, m, d) ≡ z)
at-IsDate z n doy _ _ (spring k d hk e lo hi) a h =
    let from : 1 ≤ n = omega arith in
    let years = days_of_years-from (1969 + n) (omega arith) (omega arith) in
    let leap = february_len (1969 + n) (omega arith) (omega arith) in
    (
      1969 + n,
      ground arith,
      record {
        year_from = omega arith;
        year_to = omega arith;
        month_from = omega arith;
        month_to = omega arith;
        day_from = lo;
        day_to = omega (arith, spring_length (1969 + n) k hk);
      },
      ground (arith, years, leap, spring_months (1969 + n) k hk),
    )
at-IsDate z n doy _ _ (january d e lo hi) a h = (
  1970 + n,
  ground arith,
  record {
    year_from = omega arith;
    year_to = omega arith;
    month_from = omega arith;
    month_to = omega arith;
    day_from = lo;
    day_to = hi;
  },
  omega (arith, days_of_years-from (1970 + n) (omega arith) (omega arith)),
)
at-IsDate z n doy _ _ (after_january d e lo) a h =
    let leap = february_len (1970 + n) (omega arith) (omega arith) in
    (
      1970 + n,
      ground arith,
      record {
        year_from = omega arith;
        year_to = omega arith;
        month_from = omega arith;
        month_to = omega arith;
        day_from = lo;
        day_to = ground (arith, leap);
      },
      omega (arith, days_of_years-from (1970 + n) (omega arith) (omega arith)),
    )

pub days_from_civil-IsDate :
    (z : ℕ)
    → z < 47482
    → (y m d : ℕ) × (days_from_civil z ≡ some (y, m, d)) × IsDate y m d × (day_number (y, m, d) ≡ z)
days_from_civil-IsDate z h =
    let (n, doy, a, e) = core z h in
    let (y, f, v, c) =
      at-IsDate z n doy (month_of doy) (day_of_month doy) (month_day doy a.in_year) a h in
    (y, month_of doy, day_of_month doy, e ∙ f, v, c)
