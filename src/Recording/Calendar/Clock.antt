-- ===== src/Recording/Calendar/Clock.antt =====
-- The conversion is the clock that starts at the epoch and counts seconds by the Gregorian rule.
use wire_app.Common.{
  ℕ, zero, suc, ◌+◌, ◌/◌, ◌%◌, ◌<◌, ◌≡◌, ◌⊎◌, inl, inr, refl, ap, sym, ◌∙◌, arith,
}
use wire_app.Common.Int.{ℤ, pos, negsuc}
use wire_app.Recording.Calendar.{
  div_euclid, rem_euclid, add_ℕ, times_ℕ, Date, Civil, civil_from_unix_seconds, is_leap, next_day,
  next_second, day_of_year, month_of, day_of, civil_year, shifted_month,
}
use wire_app.Recording.Calendar.Days.{leap_in_era, next_in_era, date_in_era, date_in_era-suc}

-- One more, against a division with remainder.
abbrev Carry : ℤ → ℕ → Type 0
Carry z m =
    ((suc (rem_euclid z m) < m)
      × (div_euclid (add_ℕ z 1) m ≡ div_euclid z m)
      × (rem_euclid (add_ℕ z 1) m ≡ suc (rem_euclid z m)))
    ⊎ ((suc (rem_euclid z m) ≡ m)
        × (div_euclid (add_ℕ z 1) m ≡ add_ℕ (div_euclid z m) 1)
        × (rem_euclid (add_ℕ z 1) m ≡ 0))

day-Carry : (z : ℤ) → Carry z 86_400
day-Carry (pos n) = ground arith
day-Carry (negsuc zero) = ground arith
day-Carry (negsuc (suc n)) = ground arith

era-Carry : (z : ℤ) → Carry z 146_097
era-Carry (pos n) = ground arith
era-Carry (negsuc zero) = ground arith
era-Carry (negsuc (suc n)) = ground arith

add-add : (z : ℤ) (n : ℕ) → add_ℕ (add_ℕ z 1) n ≡ add_ℕ (add_ℕ z n) 1
add-add z n = ground arith

abbrev year_in : ℤ → ℕ → ℤ
year_in era y = add_ℕ (times_ℕ era 400) y

is_leap-year_in : (era : ℤ) (y : ℕ) → is_leap (year_in era y) ≡ leap_in_era y
is_leap-year_in (pos n) y = ground arith
is_leap-year_in (negsuc n) y = ground arith

year_in-suc : (era : ℤ) (y : ℕ) → add_ℕ (year_in era y) 1 ≡ year_in era (y + 1)
year_in-suc era y = ground arith

year_in-next : (era : ℤ) (y : ℕ) → year_in (add_ℕ era 1) y ≡ year_in era (y + 400)
year_in-next era y = ground arith

-- A date in an era, and the next one.
abbrev in_era : ℤ → ℕ × ℕ × ℕ → Date
in_era era (y, m, d) = record { year = year_in era y; month = m; day = d }

next_day-in_era :
    (era : ℤ) (y m d : ℕ) → next_day (in_era era (y, m, d)) ≡ in_era era (next_in_era y m d)
next_day-in_era era y m d = ground (arith, is_leap-year_in era y, year_in-suc era y)

-- The date of a day counted from the first of March of year 0.
abbrev date_of : ℤ → Date
date_of z = in_era (div_euclid z 146_097) (date_in_era (rem_euclid z 146_097))

last_day : date_in_era 146_096 ≡ (400, 2, 29)
unfolding civil_year month_of day_of shifted_month day_of_year
last_day = refl

first_day : date_in_era 0 ≡ (0, 3, 1)
unfolding civil_year month_of day_of shifted_month day_of_year
first_day = refl

leap_day : (era : ℤ) → next_day (in_era era (400, 2, 29)) ≡ in_era era (400, 3, 1)
leap_day era = next_day-in_era era 400 2 29

-- After the last day of an era, the first of March that begins the next one.
era_wrap :
    (era : ℤ) → in_era (add_ℕ era 1) (date_in_era 0) ≡ next_day (in_era era (date_in_era 146_096))
era_wrap era =
    ap (in_era (add_ℕ era 1)) first_day
    ∙ ap (λ y. record { year = y; month = 3; day = 1 }) (year_in-next era 0)
    ∙ sym (leap_day era)
    ∙ sym (ap (λ t. next_day (in_era era t)) last_day)

date_of-suc : (z : ℤ) → date_of (add_ℕ z 1) ≡ next_day (date_of z)
date_of-suc z = elim (era-Carry z) [
  | inl (small, e, f) ↦
      let doe = rem_euclid z 146_097 in
      rw (e, f)
        (ap (in_era (div_euclid z 146_097)) (date_in_era-suc doe small)
          ∙ sym (
              next_day-in_era (div_euclid z 146_097) (civil_year doe) (month_of (day_of_year doe))
                (day_of (day_of_year doe))))
  | inr (last, e, f) ↦
      let l : rem_euclid z 146_097 ≡ 146_096 = omega arith in
      rw (e, f, l) (era_wrap (div_euclid z 146_097))
]

-- The time of day, by the number of the second.
abbrev time_of : ℕ → Date → Civil
time_of t date = record { date = date; hour = t / 3_600; minute = t % 3_600 / 60; second = t % 60 }

next_second-time_of :
    (t : ℕ) (date : Date) → suc t < 86_400 → next_second (time_of t date) ≡ time_of (suc t) date
next_second-time_of t date h = ground arith

next_second-midnight : (date : Date) → next_second (time_of 86_399 date) ≡ time_of 0 (next_day date)
next_second-midnight date = refl

midnight :
    (days : ℤ)
    → time_of 0 (date_of (add_ℕ (add_ℕ days 1) 719_468))
      ≡ next_second (time_of 86_399 (date_of (add_ℕ days 719_468)))
midnight days =
    ap (λ z. time_of 0 (date_of z)) (add-add days 719_468)
    ∙ ap (time_of 0) (date_of-suc (add_ℕ days 719_468))
    ∙ sym (next_second-midnight (date_of (add_ℕ days 719_468)))

one_second_later :
    (s : ℤ) → civil_from_unix_seconds (add_ℕ s 1) ≡ next_second (civil_from_unix_seconds s)
unfolding civil_from_unix_seconds
one_second_later s = elim (day-Carry s) [
  | inl (small, e, f) ↦
      rw (e, f)
        (sym (
          next_second-time_of (rem_euclid s 86_400) (date_of (add_ℕ (div_euclid s 86_400) 719_468))
            small))
  | inr (last, e, f) ↦
      let l : rem_euclid s 86_400 ≡ 86_399 = omega arith in
      rw (e, f, l) (midnight (div_euclid s 86_400))
]

abbrev pub epoch : Civil
epoch = record {
  date = record { year = pos 1970; month = 1; day = 1 };
  hour = 0;
  minute = 0;
  second = 0;
}

at_epoch : civil_from_unix_seconds (pos 0) ≡ epoch
unfolding civil_from_unix_seconds civil_year month_of day_of shifted_month day_of_year
at_epoch = refl

-- Second 0 is the beginning of the first of January 1970, and one second after any second, before it
-- or after it, is the next second of the Gregorian calendar.
pub civil_from_unix_seconds-next :
    (s : ℤ)
    → (civil_from_unix_seconds (pos 0) ≡ epoch)
      × (civil_from_unix_seconds (add_ℕ s 1) ≡ next_second (civil_from_unix_seconds s))
civil_from_unix_seconds-next s = (at_epoch, one_second_later s)
