-- ===== src/ModelList/Calendar/Reference/March.antt =====
-- What the program computes of a day: the year from a March, the day of it, the month of that day.
use free_claude_desktop.Prelude.{
  ℕ, ◌+◌, ◌-◌, ◌*◌, ◌/◌, ◌%◌, ◌≤◌, ◌<◌, ◌≡◌, ap, subst, ◌∙◌, ◌⊎◌, inl, inr, Option, arith, leb,
  if◌then◌else◌,
}
use free_claude_desktop.ModelList.Calendar.{
  Civil, year_of_era, day_of_year, month_from_march, day_of_month, month_of, year_final,
  days_from_civil, in_range,
}

march4 :
    (doe : ℕ)
    → 135080 ≤ doe
    → doe ≤ 146096
    → (365 * year_of_era doe + year_of_era doe / 4 + day_of_year doe ≡ doe + 3)
      × (day_of_year doe ≤ 365)
      × (369 ≤ year_of_era doe)
      × (year_of_era doe ≤ 399)
      × (day_of_year doe < 365 ⊎ (year_of_era doe % 4 ≡ 3))
march4 doe lo hi = omega arith

march5 :
    (doe : ℕ)
    → doe ≤ 36523
    → (365 * year_of_era doe + year_of_era doe / 4 + day_of_year doe ≡ doe)
      × (day_of_year doe ≤ 365)
      × (year_of_era doe ≤ 99)
      × (day_of_year doe < 365 ⊎ (year_of_era doe % 4 ≡ 3))
march5 doe hi = omega arith

-- The month and the day of the month of the day `doy` from March.
pub data MonthDay (doy : ℕ) : ℕ → ℕ → Type 0 where
  spring :
      (k d : ℕ)
      → k ≤ 9
      → doy + 1 ≡ d + (153 * k + 2) / 5
      → 1 ≤ d
      → doy < (153 * (k + 1) + 2) / 5
      → MonthDay doy (k + 3) d
  january : (d : ℕ) → doy ≡ d + 305 → 1 ≤ d → d ≤ 31 → MonthDay doy 1 d
  after_january : (d : ℕ) → doy ≡ d + 336 → 1 ≤ d → MonthDay doy 2 d

month_cases :
    (doy : ℕ)
    → doy ≤ 365
    → ((month_of doy ≡ month_from_march doy + 3) × (month_from_march doy ≤ 9))
      ⊎ ((month_of doy ≡ 1) × (306 ≤ doy) × (doy ≤ 336) × (day_of_month doy ≡ doy - 305))
      ⊎ ((month_of doy ≡ 2) × (337 ≤ doy) × (day_of_month doy ≡ doy - 336))
month_cases doy h = ground arith

pub month_day : (doy : ℕ) → doy ≤ 365 → MonthDay doy (month_of doy) (day_of_month doy)
month_day doy h = elim (month_cases doy h) [
  | inl (e, k) ↦
      rw e (
        spring (month_from_march doy) (day_of_month doy) k (omega arith) (omega arith)
          (omega arith))
  | inr (inl (e, lo, hi, d)) ↦
      rw (e, d) (january (doy - 305) (omega arith) (omega arith) (omega arith))
  | inr (inr (e, lo, d)) ↦ rw (e, d) (after_january (doy - 336) (omega arith) (omega arith))
]

abbrev pub civil_of : ℕ → ℕ → Option Civil
civil_of era doe =
    in_range (year_final era doe, month_of (day_of_year doe), day_of_month (day_of_year doe))

abbrev pub civil_at : ℕ → ℕ → Option Civil
civil_at y doy =
    in_range ((if leb (month_of doy) 2 then y + 1 else y), month_of doy, day_of_month doy)

-- The day `doy` of the year from the March of `1969 + n` on.
pub record AtMarch (z n doy : ℕ) : Type 0 where
  pub count : z + 306 ≡ 365 * n + (n + 1) / 4 + doy
  pub in_year : doy ≤ 365
  pub leap_day : doy < 365 ⊎ (n % 4 ≡ 2)
  pub year_to : n ≤ 130

core4 :
    (doe : ℕ)
    → 135080 ≤ doe
    → doe ≤ 146096
    → (n : ℕ) × AtMarch (doe - 135080) n (day_of_year doe)
      × (civil_of 4 doe ≡ civil_at (1969 + n) (day_of_year doe))
core4 doe lo hi =
    let (a, b, c, d, l) = march4 doe lo hi in
    (
      year_of_era doe - 369,
      record {
        count = omega (arith, a);
        in_year = b;
        leap_day = omega (arith, l);
        year_to = omega arith;
      },
      ap (λ y. civil_at y (day_of_year doe)) (omega arith),
    )

core5 :
    (doe : ℕ)
    → doe ≤ 36464
    → (n : ℕ) × AtMarch (doe + 11017) n (day_of_year doe)
      × (civil_of 5 doe ≡ civil_at (1969 + n) (day_of_year doe))
core5 doe hi =
    let (a, b, d, l) = march5 doe (omega arith) in
    (
      year_of_era doe + 31,
      record {
        count = omega (arith, a);
        in_year = b;
        leap_day = omega (arith, l);
        year_to = omega arith;
      },
      ap (λ y. civil_at y (day_of_year doe)) (omega arith),
    )

era_cases :
    (z : ℕ)
    → z < 47482
    → ((((z + 719468) / 146097) ≡ 4) × (z + 719468 - 4 * 146097 ≡ z + 135080) × (z ≤ 11016))
      ⊎ ((((z + 719468) / 146097) ≡ 5) × (z + 719468 - 5 * 146097 ≡ z - 11017) × (11017 ≤ z))
era_cases z h = omega arith

pub days_from_civil-eq :
    (z era doe : ℕ)
    → (z + 719468) / 146097 ≡ era
    → z + 719468 - era * 146097 ≡ doe
    → days_from_civil z ≡ civil_of era doe
unfolding days_from_civil
days_from_civil-eq z era doe e d =
    ap (λ k. civil_of k ((z + 719468) - k * 146097)) e ∙ ap (civil_of era) d

pub core :
    (z : ℕ)
    → z < 47482
    → (n doy : ℕ) × AtMarch z n doy × (days_from_civil z ≡ civil_at (1969 + n) doy)
core z h = elim (era_cases z h) [
  | inl (e, d, hi) ↦
      let (n, a, c) = core4 (z + 135080) (omega arith) (omega arith) in
      (
        n,
        day_of_year (z + 135080),
        subst (λ x. AtMarch x n (day_of_year (z + 135080))) (omega arith) a,
        days_from_civil-eq z 4 _ e d ∙ c,
      )
  | inr (e, d, lo) ↦
      let (n, a, c) = core5 (z - 11017) (omega arith) in
      (
        n,
        day_of_year (z - 11017),
        subst (λ x. AtMarch x n (day_of_year (z - 11017))) (omega arith) a,
        days_from_civil-eq z 5 _ e d ∙ c,
      )
]

abbrev pub shown : ℕ → ℕ → ℕ → Option Civil
shown n m d = in_range ((if leb m 2 then 1969 + n + 1 else 1969 + n), m, d)
