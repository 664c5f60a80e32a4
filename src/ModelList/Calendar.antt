-- ===== src/ModelList/Calendar.antt =====
-- The timestamps of the models: seconds since 1970 as an RFC 3339 text. Day numbers are counted
-- from 1970-01-01 and are natural numbers, as the only caller gives no other.
pub mod Reference
use free_claude_desktop.Prelude.{
  ℕ, ◌+◌, ◌-◌, ◌*◌, ◌/◌, ◌%◌, ◌^◌, String, Bool, true, false, ◌&&◌, Option, none, some, List, [],
  ◌∷◌, ltb, leb, if◌then◌else◌, and_then,
}
use free_claude_desktop.Prelude.Texts.{concat, padded}

-- A year, a month and a day.
abbrev pub Civil : Type 0
Civil = ℕ × ℕ × ℕ

-- The years from a March, the day of such a year, and the month from March.
abbrev pub year_of_era : ℕ → ℕ
year_of_era doe = (((doe - doe / 1460) + doe / 36524) - doe / 146096) / 365

abbrev pub day_of_year : ℕ → ℕ
day_of_year doe = let yoe = year_of_era doe in doe - ((365 * yoe + yoe / 4) - yoe / 100)

abbrev pub month_from_march : ℕ → ℕ
month_from_march doy = (5 * doy + 2) / 153

abbrev pub day_of_month : ℕ → ℕ
day_of_month doy = (doy - (153 * month_from_march doy + 2) / 5) + 1

abbrev pub month_of : ℕ → ℕ
month_of doy = let mp = month_from_march doy in if ltb mp 10 then mp + 3 else mp - 9

abbrev pub year_final : ℕ → ℕ → ℕ
year_final era doe =
    let y = year_of_era doe + era * 400 in if leb (month_of (day_of_year doe)) 2 then y + 1 else y

abbrev pub in_range : Civil → Option Civil
in_range (y, m, d) = if leb 1970 y && leb y 2099 then some (y, m, d) else none

unfoldable pub days_from_civil : ℕ → Option Civil
days_from_civil days =
    let z = days + 719468 in
    let era = z / 146097 in
    let doe = z - era * 146097 in
    let doy = day_of_year doe in in_range (year_final era doe, month_of doy, day_of_month doy)

abbrev pub stamp : Civil → ℕ → ℕ → String
stamp (year, month, day) secs_of_day millis = concat (
    padded 4 year
    ∷ "-"
    ∷ padded 2 month
    ∷ "-"
    ∷ padded 2 day
    ∷ "T"
    ∷ padded 2 (secs_of_day / 3600)
    ∷ ":"
    ∷ padded 2 ((secs_of_day % 3600) / 60)
    ∷ ":"
    ∷ padded 2 ((secs_of_day % 3600) % 60)
    ∷ "."
    ∷ padded 3 millis
    ∷ "Z"
    ∷ [])

-- A duration is its whole seconds and its milliseconds.
unfoldable pub format_rfc3339_utc : ℕ → ℕ → Option String
format_rfc3339_utc total_secs millis =
    and_then (days_from_civil (total_secs / 86400))
      (λ civil. some (stamp civil (total_secs % 86400) millis))

-- `ts as i64` is negative from `2 ^ 63` on.
unfoldable pub unix_secs_to_rfc3339 : ℕ → Option String
unix_secs_to_rfc3339 ts = if ltb ts (2 ^ 63) then format_rfc3339_utc ts 0 else none
