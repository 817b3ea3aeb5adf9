-- ===== src/Recording/Calendar/Days.antt =====
-- The days of an era of 400 years, which starts on the first of March.
use wire_app.Common.{
  ℕ, suc, ◌+◌, ◌-◌, ◌*◌, ◌/◌, ◌%◌, ◌≤◌, ◌<◌, ◌≡◌, ◌⊎◌, inl, inr, refl, arith, Bool, true, false,
  not, ◌&&◌, ◌||◌, ltb, leb, ◌==◌, if◌then◌else◌,
}
use wire_app.Recording.Calendar.{
  year_of_era, day_of_year, shifted_month, month_of, day_of, civil_year, days_in_month,
}

-- The days of an era before its year `y`.
abbrev before : ℕ → ℕ
before y = 365 * y + y / 4 - y / 100

year_of_era_bounds :
    (doe : ℕ)
    → doe < 146_097
    → (before (year_of_era doe) ≤ doe)
      × (year_of_era doe < 400)
      × ((doe < before (year_of_era doe + 1)) ⊎ (doe ≡ 146_096))
unfolding year_of_era
year_of_era_bounds doe h = ground arith

-- The year that starts in the January of a shifted year, by its number in the era.
abbrev pub leap_in_era : ℕ → Bool
leap_in_era y = y % 4 == 0 && (not (y % 100 == 0) || y % 400 == 0)

-- Within a shifted year, a day is followed by the next of its month, or by the first of the next
-- month; February has 28 days at least.
day_step :
    (doy : ℕ) (leap : Bool)
    → doy < 364
    → let m = month_of doy in
      let d = day_of doy in
      ((d < days_in_month leap m) × (month_of (suc doy) ≡ m) × (day_of (suc doy) ≡ d + 1))
      ⊎ ((days_in_month leap m ≡ d)
          × ((m == 2) ≡ false)
          × (day_of (suc doy) ≡ 1)
          × (month_of (suc doy) ≡ (if m == 12 then 1 else m + 1)))
unfolding month_of day_of shifted_month
day_step doy leap h = ground arith

-- A shifted year has 366 days where the year that starts in it is a leap year.
year_length :
    (y : ℕ)
    → y < 400
    → before (y + 1) ≡ before y + (if leap_in_era (y + 1) then 366 else 365) ⊎ (y ≡ 399)
year_length y h = ground arith

-- The next day is in the same shifted year, or it is the first day of the next one.
year_step :
    (doe : ℕ)
    → suc doe < 146_097
    → let leap = leap_in_era (year_of_era doe + 1) in
      ((year_of_era (suc doe) ≡ year_of_era doe)
        × (day_of_year (suc doe) ≡ day_of_year doe + 1)
        × ((day_of_year doe < 364) ⊎ ((day_of_year doe ≡ 364) × (leap ≡ true))))
      ⊎ ((year_of_era (suc doe) ≡ year_of_era doe + 1)
          × (day_of_year (suc doe) ≡ 0)
          × (((day_of_year doe ≡ 364) × (leap ≡ false))
              ⊎ ((day_of_year doe ≡ 365) × (leap ≡ true))))
unfolding day_of_year
year_step doe h =
    ground
      (arith, year_of_era_bounds doe, year_of_era_bounds (suc doe), year_length (year_of_era doe))

-- The Gregorian rule on the years of an era.
abbrev pub next_in_era : ℕ → ℕ → ℕ → ℕ × ℕ × ℕ
next_in_era y m d =
    if ltb d (days_in_month (leap_in_era y) m)
    then (y, m, d + 1)
    else if ltb m 12
    then (y, m + 1, 1)
    else (y + 1, 1, 1)

abbrev pub date_in_era : ℕ → ℕ × ℕ × ℕ
date_in_era doe = (civil_year doe, month_of (day_of_year doe), day_of (day_of_year doe))

abbrev date_at : ℕ → ℕ → ℕ × ℕ × ℕ
date_at yoe doy = (if leb (month_of doy) 2 then yoe + 1 else yoe, month_of doy, day_of doy)

month_range : (doy : ℕ) → doy < 366 → (1 ≤ month_of doy) × (month_of doy ≤ 12)
unfolding month_of shifted_month
month_range doy h = ground arith

same_year :
    (yoe doy : ℕ)
    → doy < 364
    → let (y, m, d) = date_at yoe doy in date_at yoe (suc doy) ≡ next_in_era y m d
same_year yoe doy h =
    ground (arith, day_step doy (leap_in_era (date_at yoe doy).0) h, month_range doy)

leap_day :
    (yoe : ℕ)
    → leap_in_era (yoe + 1) ≡ true
    → let (y, m, d) = date_at yoe 364 in date_at yoe 365 ≡ next_in_era y m d
unfolding month_of day_of shifted_month
leap_day yoe leap = rw leap refl

first_of_march :
    (yoe doy : ℕ)
    → ((doy ≡ 364) × (leap_in_era (yoe + 1) ≡ false))
      ⊎ ((doy ≡ 365) × (leap_in_era (yoe + 1) ≡ true))
    → let (y, m, d) = date_at yoe doy in date_at (yoe + 1) 0 ≡ next_in_era y m d
unfolding month_of day_of shifted_month
first_of_march yoe doy (inl (e, leap)) = rw e (rw leap refl)
first_of_march yoe doy (inr (e, leap)) = rw e (rw leap refl)

-- Within an era the next day is the one of the Gregorian rule.
pub date_in_era-suc :
    (doe : ℕ)
    → suc doe < 146_097
    → let (y, m, d) = date_in_era doe in date_in_era (suc doe) ≡ next_in_era y m d
unfolding civil_year
date_in_era-suc doe h = elim (year_step doe h) [
  | inl (e, f, inl g) ↦
      let f' : day_of_year (suc doe) ≡ suc (day_of_year doe) = omega arith in
      rw (e, f') (same_year (year_of_era doe) (day_of_year doe) g)
  | inl (e, f, inr (g, leap)) ↦
      let f' : day_of_year (suc doe) ≡ 365 = omega arith in
      rw (e, f', g) (leap_day (year_of_era doe) leap)
  | inr (e, f, g) ↦ rw (e, f) (first_of_march (year_of_era doe) (day_of_year doe) g)
]
