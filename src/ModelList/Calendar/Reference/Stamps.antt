-- ===== src/ModelList/Calendar/Reference/Stamps.antt =====
-- The date of a day number, and the timestamp of a second, by the reference calendar.
use free_claude_desktop.Prelude.{
  ℕ, ◌+◌, ◌*◌, ◌/◌, ◌%◌, ◌^◌, ◌≤◌, ◌<◌, ◌≡◌, ◌≢◌, refl, ap, subst, ◌∙◌, ◌↔◌, inl, inr, true, false,
  Option, none, some, arith, ltb, leb, and_then, Bool-cases, String, [], ◌∷◌,
}
use free_claude_desktop.Prelude.Texts.{concat, padded}
use free_claude_desktop.ModelList.Calendar.{
  Civil, days_from_civil, format_rfc3339_utc, unix_secs_to_rfc3339, stamp,
}
use free_claude_desktop.ModelList.Calendar.Reference.{day_number, IsDate}
use free_claude_desktop.ModelList.Calendar.Reference.Count.{days_from_civil-IsDate}
use free_claude_desktop.ModelList.Calendar.Reference.Range.{days_from_civil-none}
use free_claude_desktop.ModelList.Calendar.Reference.RoundTrip.{
  number_bound, days_from_civil-day_number,
}

sound :
    (z y m d : ℕ) → days_from_civil z ≡ some (y, m, d) → IsDate y m d × (day_number (y, m, d) ≡ z)
sound z y m d h = elim (Bool-cases (ltb z 47482)) [
  | inl early ↦
      let (y', m', d', e, v, n) = days_from_civil-IsDate z (ground arith) in
      let p : ◌≡◌ {A = Civil} (y', m', d') (y, m, d) = ground (arith, e, h) in
      subst (λ (c : Civil). IsDate c.0 c.1 c.2 × (day_number c ≡ z)) p (v, n)
  | inr late ↦ absurd (cc (days_from_civil-none z (ground arith), h))
]

-- A day number gives a date exactly when the date is valid, its year is 1970 to 2099, and
-- counting the days of the years and months before it gives that number.
pub days_from_civil_iff :
    (z y m d : ℕ)
    → (days_from_civil z ≡ some (y, m, d)) ↔ (IsDate y m d × (day_number (y, m, d) ≡ z))
days_from_civil_iff z y m d = (
  sound z y m d,
  λ (v, e). subst (λ k. days_from_civil k ≡ some (y, m, d)) e (days_from_civil-day_number y m d v),
)

-- The second of a time of day on a date.
abbrev pub second_number : Civil → ℕ → ℕ → ℕ → ℕ
second_number civil hour minute second =
    ((day_number civil * 24 + hour) * 60 + minute) * 60 + second

abbrev pub date_time : Civil → ℕ → ℕ → ℕ → String
date_time (year, month, day) hour minute second = concat (
    padded 4 year
    ∷ "-"
    ∷ padded 2 month
    ∷ "-"
    ∷ padded 2 day
    ∷ "T"
    ∷ padded 2 hour
    ∷ ":"
    ∷ padded 2 minute
    ∷ ":"
    ∷ padded 2 second
    ∷ "."
    ∷ padded 3 0
    ∷ "Z"
    ∷ [])

split_lem :
    (n h m s : ℕ)
    → h < 24
    → m < 60
    → s < 60
    → let t = ((n * 24 + h) * 60 + m) * 60 + s in
      (t / 86400 ≡ n)
      × ((t % 86400) / 3600 ≡ h)
      × (((t % 86400) % 3600) / 60 ≡ m)
      × (((t % 86400) % 3600) % 60 ≡ s)
split_lem n h m s a b c = omega arith

stamp_lem :
    (civil : Civil) (n hour minute second : ℕ)
    → hour < 24
    → minute < 60
    → second < 60
    → stamp civil ((((n * 24 + hour) * 60 + minute) * 60 + second) % 86400) 0
      ≡ date_time civil hour minute second
stamp_lem civil n hour minute second a b c =
    let (e, f, g, h) = split_lem n hour minute second a b c in rw (f, g, h) refl

unix_secs-eq :
    (ts : ℕ) (o : Option Civil)
    → ts < 2 ^ 63
    → days_from_civil (ts / 86400) ≡ o
    → unix_secs_to_rfc3339 ts ≡ and_then o (λ civil. some (stamp civil (ts % 86400) 0))
unfolding unix_secs_to_rfc3339 format_rfc3339_utc
unix_secs-eq ts o h e = let t : ltb ts 9223372036854775808 ≡ true = ground arith in rw (t, e) refl

-- The second that is counted for a valid date from 1970 to 2099 and a time of day is written as
-- the timestamp of that date and time.
pub unix_secs_to_rfc3339_lem :
    (y m d hour minute second : ℕ)
    → IsDate y m d
    → hour < 24
    → minute < 60
    → second < 60
    → unix_secs_to_rfc3339 (second_number (y, m, d) hour minute second)
      ≡ some (date_time (y, m, d) hour minute second)
unix_secs_to_rfc3339_lem y m d hour minute second v a b c =
    let n = day_number (y, m, d) in
    let small = number_bound y m d v in
    let (e, f, g, h) = split_lem n hour minute second a b c in
    unix_secs-eq (second_number (y, m, d) hour minute second) (some (y, m, d)) (omega arith)
      (ap days_from_civil e ∙ days_from_civil-day_number y m d v)
    ∙ ap some (stamp_lem (y, m, d) n hour minute second a b c)

past_range : (ts : ℕ) → 2 ^ 63 ≤ ts → unix_secs_to_rfc3339 ts ≡ none
unfolding unix_secs_to_rfc3339
past_range ts h = let t : ltb ts 9223372036854775808 ≡ false = ground arith in rw t refl

late : (ts : ℕ) → 4102444800 ≤ ts → unix_secs_to_rfc3339 ts ≡ none
late ts h = elim (Bool-cases (ltb ts (2 ^ 63))) [
  | inl small ↦
      unix_secs-eq ts none (ground arith) (days_from_civil-none (ts / 86400) (omega arith))
  | inr large ↦ past_range ts (ground arith)
]

early : (ts : ℕ) → ts < 4102444800 → unix_secs_to_rfc3339 ts ≢ none
early ts h e =
    let (y, m, d, f, v, n) = days_from_civil-IsDate (ts / 86400) (omega arith) in
    cc (unix_secs-eq ts (some (y, m, d)) (omega arith) f, e)

--
pub unix_secs-none : (ts : ℕ) → (unix_secs_to_rfc3339 ts ≡ none) ↔ (4102444800 ≤ ts)
unix_secs-none ts = (
  λ h. elim (Bool-cases (leb 4102444800 ts)) [
    | inl late ↦ ground arith
    | inr soon ↦ absurd (early ts (ground arith) h)
  ],
  late ts,
)
