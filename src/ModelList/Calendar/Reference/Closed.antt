-- ===== src/ModelList/Calendar/Reference/Closed.antt =====
-- Closed forms of the counts of days, from 1970 to 2099.
use free_claude_desktop.Prelude.{
  ℕ, zero, suc, ◌+◌, ◌-◌, ◌*◌, ◌/◌, ◌%◌, ◌≤◌, ◌≡◌, refl, ap, ◌∙◌, arith, eqb, if◌then◌else◌,
}
use free_claude_desktop.ModelList.Calendar.Reference.{
  is_leap, days_of_years, february, length_with, month_length, days_of_months,
}

pub leap_lem : (y : ℕ) → 1970 ≤ y → y ≤ 2099 → is_leap y ≡ eqb (y % 4) 0
leap_lem y lo hi = ground arith

pub days_of_years_lem : (n : ℕ) → n ≤ 130 → days_of_years n ≡ 365 * n + (n + 1) / 4
days_of_years_lem zero h = refl
days_of_years_lem (suc n) h =
    let ih = days_of_years_lem n (omega arith) in
    let l = leap_lem (1970 + n) (omega arith) (omega arith) in ground (arith, ih, l)

pub length_with_lem :
    (f k : ℕ)
    → k ≤ 9
    → length_with f (suc (suc (suc k))) ≡ (153 * (k + 1) + 2) / 5 - (153 * k + 2) / 5
length_with_lem f k h = ground arith

-- The days before the months from March on.
pub from_march_lem :
    (y k : ℕ) → k ≤ 9 → days_of_months y (suc (suc k)) ≡ 31 + february y + (153 * k + 2) / 5
from_march_lem y zero h = omega arith
from_march_lem y (suc k) h =
    let ih = from_march_lem y k (omega arith) in
    let l : month_length y (suc (suc (suc k))) ≡ _ = length_with_lem (february y) k (omega arith) in
    omega (arith, ih, l)

pub february_len : (y : ℕ) → 1970 ≤ y → y ≤ 2099 → february y ≡ (if eqb (y % 4) 0 then 29 else 28)
february_len y lo hi = ap (λ b. if b then 29 else 28) (leap_lem y lo hi)

pub days_of_years-from :
    (y : ℕ) → 1970 ≤ y → y ≤ 2099 → days_of_years (y - 1970) ≡ 365 * (y - 1970) + (y - 1969) / 4
days_of_years-from y lo hi = days_of_years_lem (y - 1970) (omega arith) ∙ omega arith

pub spring_months :
    (y k : ℕ) → k ≤ 9 → days_of_months y ((k + 3) - 1) ≡ 31 + february y + (153 * k + 2) / 5
spring_months y k h =
    ap (days_of_months y) {x = (k + 3) - 1} {y = suc (suc k)} (omega arith) ∙ from_march_lem y k h

pub spring_length :
    (y k : ℕ) → k ≤ 9 → month_length y (k + 3) ≡ (153 * (k + 1) + 2) / 5 - (153 * k + 2) / 5
spring_length y k h =
    ap (month_length y) {x = k + 3} {y = suc (suc (suc k))} (omega arith)
    ∙ length_with_lem (february y) k h
