-- ===== src/ModelList/Calendar/Reference/RoundTrip.antt =====
-- Dates and day numbers determine each other.
use free_claude_desktop.Prelude.{
  ℕ, zero, suc, ◌+◌, ◌-◌, ◌≤◌, ◌<◌, ◌≡◌, refl, sym, ap, subst, ◌∙◌, inl, inr, some, arith, leb,
  if◌then◌else◌, Bool-cases,
}
use free_claude_desktop.ModelList.Calendar.{Civil, days_from_civil}
use free_claude_desktop.ModelList.Calendar.Reference.{
  is_leap, days_of_years, month_length, days_of_months, day_number, IsDate,
}
use free_claude_desktop.ModelList.Calendar.Reference.Count.{days_from_civil-IsDate}

-- A count that never falls.
mono : (f : ℕ → ℕ) → ((k : ℕ) → f k ≤ f (suc k)) → (j k : ℕ) → j ≤ k → f j ≤ f k
mono f step j zero h = let e : j ≡ 0 = omega arith in subst (λ i. f i ≤ f 0) (sym e) (omega arith)
mono f step j (suc k) h = elim (Bool-cases (leb j k)) [
  | inl below ↦ omega (arith, mono f step j k (ground arith), step k)
  | inr above ↦
      let e : j ≡ suc k = ground arith in subst (λ i. f i ≤ f (suc k)) (sym e) (omega arith)
]

years_mono : (j k : ℕ) → j ≤ k → days_of_years j ≤ days_of_years k
years_mono = mono days_of_years (λ k. omega arith)

months_mono : (y j k : ℕ) → j ≤ k → days_of_months y j ≤ days_of_months y k
months_mono y = mono (days_of_months y) (λ k. omega arith)

year_length : (y : ℕ) → days_of_months y 12 ≡ (if is_leap y then 366 else 365)
year_length y = grind arith

-- The days up to a date lie within its year.
days_of_months-pred :
    (y m : ℕ) → 1 ≤ m → days_of_months y m ≡ days_of_months y (m - 1) + month_length y m
days_of_months-pred y zero h = absurd (omega arith)
days_of_months-pred y (suc m) h = let e : suc m - 1 ≡ m = omega arith in rw e refl

in_months : (y m d : ℕ) → IsDate y m d → days_of_months y (m - 1) + d ≤ days_of_months y m
in_months y m d v = omega (arith, days_of_months-pred y m v.month_from, v.day_to)

in_year : (y m d : ℕ) → IsDate y m d → day_number (y, m, d) < days_of_years (suc (y - 1970))
in_year y m d v =
    let e : 1970 + (y - 1970) ≡ y = omega (arith, v.year_from) in
    let l : days_of_years (suc (y - 1970))
        ≡ days_of_years (y - 1970) + (if is_leap y then 366 else 365) =
      ap (λ x. days_of_years (y - 1970) + (if is_leap x then 366 else 365)) e in
    omega (arith, l, year_length y, in_months y m d v, months_mono y m 12 v.month_to, v.day_from)

-- The earlier of two dates has the smaller number.
year_of_day :
    (y m d y' m' d' : ℕ)
    → IsDate y m d
    → IsDate y' m' d'
    → day_number (y, m, d) ≡ day_number (y', m', d')
    → y' ≤ y
year_of_day y m d y' m' d' v w e = elim (Bool-cases (leb y' y)) [
  | inl done ↦ ground arith
  | inr more ↦ absurd (
      omega (
        arith,
        in_year y m d v,
        years_mono (suc (y - 1970)) (y' - 1970) (ground (arith, v.year_from)),
      ))
]

month_of_day :
    (y m d m' d' : ℕ)
    → IsDate y m d
    → IsDate y m' d'
    → day_number (y, m, d) ≡ day_number (y, m', d')
    → m' ≤ m
month_of_day y m d m' d' v w e = elim (Bool-cases (leb m' m)) [
  | inl done ↦ ground arith
  | inr more ↦ absurd (
      omega
        (arith, in_months y m d v, v.day_from, w.day_from, months_mono y m (m' - 1) (ground arith)))
]

le_antisym : (a b : ℕ) → a ≤ b → b ≤ a → a ≡ b
le_antisym a b h k = omega arith

same_month :
    (y m d m' d' : ℕ)
    → IsDate y m d
    → IsDate y m' d'
    → day_number (y, m, d) ≡ day_number (y, m', d')
    → ◌≡◌ {A = Civil} (y, m, d) (y, m', d')
same_month y m d m' d' v w e =
    let em =
      le_antisym m m' (month_of_day y m' d' m d w v (sym e)) (month_of_day y m d m' d' v w e) in
    let months = ap (λ k. days_of_months y (k - 1)) em in
    let ed : d ≡ d' = omega (arith, v.day_from, w.day_from) in ground (arith, em, ed)

pub day_number-injective :
    (y m d y' m' d' : ℕ)
    → IsDate y m d
    → IsDate y' m' d'
    → day_number (y, m, d) ≡ day_number (y', m', d')
    → ◌≡◌ {A = Civil} (y, m, d) (y', m', d')
day_number-injective y m d y' m' d' v w e =
    let ey =
      le_antisym y' y (year_of_day y m d y' m' d' v w e) (year_of_day y' m' d' y m d w v (sym e)) in
    subst (λ x. ◌≡◌ {A = Civil} (y, m, d) (x, m', d')) (sym ey)
      (same_month y m d m' d' v (subst (λ x. IsDate x m' d') ey w)
        (e ∙ ap (λ x. day_number (x, m', d')) ey))

pub number_bound : (y m d : ℕ) → IsDate y m d → day_number (y, m, d) < 47482
number_bound y m d v =
    omega (arith, in_year y m d v, years_mono (suc (y - 1970)) 130 (omega (arith, v.year_to)))

pub days_from_civil-day_number :
    (y m d : ℕ) → IsDate y m d → days_from_civil (day_number (y, m, d)) ≡ some (y, m, d)
days_from_civil-day_number y m d v =
    let (y', m', d', e, w, n) =
      days_from_civil-IsDate (day_number (y, m, d)) (number_bound y m d v) in
    e ∙ ap some (day_number-injective y' m' d' y m d w v n)
