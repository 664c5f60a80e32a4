-- ===== src/ModelList/Calendar/Reference/Range.antt =====
-- The dates after 2099 are refused.
use free_claude_desktop.Prelude.{
  ℕ, ◌+◌, ◌-◌, ◌*◌, ◌/◌, ◌≤◌, ◌≡◌, refl, ◌∙◌, ◌⊎◌, inl, inr, none, arith,
}
use free_claude_desktop.ModelList.Calendar.{
  year_of_era, day_of_year, month_of, year_final, days_from_civil, in_range,
}
use free_claude_desktop.ModelList.Calendar.Reference.March.{days_from_civil-eq}

year_or_month :
    (doe : ℕ)
    → 36465 ≤ doe
    → doe ≤ 146096
    → 100 ≤ year_of_era doe
      ⊎ ((year_of_era doe ≡ 99) × (306 ≤ day_of_year doe) × (day_of_year doe ≤ 365))
year_or_month doe lo hi = omega arith

late_month : (doy : ℕ) → 306 ≤ doy → doy ≤ 365 → month_of doy ≤ 2
late_month doy lo hi = ground arith

final_lo :
    (era doe : ℕ)
    → (e : 6 ≤ era ⊎ ((era ≡ 5) × (36465 ≤ doe) × (doe ≤ 146096))) → 2100 ≤ year_final era doe
final_lo era doe (inl e) = ground arith
final_lo era doe (inr (e, lo, hi)) = elim (year_or_month doe lo hi) [
  | inl h ↦ ground arith
  | inr (h, j, k) ↦ ground (arith, late_month (day_of_year doe) j k)
]

in_range-none : (y m d : ℕ) → 2100 ≤ y → in_range (y, m, d) ≡ none
in_range-none y m d h = ground arith

late_era :
    (z : ℕ)
    → 47482 ≤ z
    → 6 ≤ ((z + 719468) / 146097)
      ⊎ ((((z + 719468) / 146097) ≡ 5)
          × (36465 ≤ z + 719468 - ((z + 719468) / 146097) * 146097)
          × (z + 719468 - ((z + 719468) / 146097) * 146097 ≤ 146096))
late_era z h = omega arith

pub days_from_civil-none : (z : ℕ) → 47482 ≤ z → days_from_civil z ≡ none
days_from_civil-none z h =
    let era = (z + 719468) / 146097 in
    let doe = z + 719468 - era * 146097 in
    days_from_civil-eq z era doe refl refl ∙ in_range-none _ _ _ (final_lo era doe (late_era z h))
