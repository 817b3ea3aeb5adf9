-- ===== src/Recording/Calendar.antt =====
-- `civil_from_unix_seconds` of recording.rs, and a reference calendar: a clock that counts seconds,
-- and the Gregorian rule for the next day. No sum leaves the range of `i64` for the seconds of a
-- `SystemTime`; the model has no bound.
pub mod Days
pub mod Clock
use wire_app.Common.{
  ℕ, suc, ◌+◌, ◌-◌, ◌*◌, ◌/◌, ◌%◌, Bool, true, false, not, ◌&&◌, ◌||◌, ltb, leb, ◌==◌,
  if◌then◌else◌,
}
use wire_app.Common.Int.{ℤ, pos, negsuc, pos_part, neg_part, sub_ℕ}

-- `i64::div_euclid` and `rem_euclid` by a positive number.
abbrev pub div_euclid : ℤ → ℕ → ℤ
div_euclid (pos n) m = pos (n / m)
div_euclid (negsuc n) m = negsuc (n / m)

abbrev pub rem_euclid : ℤ → ℕ → ℕ
rem_euclid (pos n) m = n % m
rem_euclid (negsuc n) m = m - 1 - n % m

abbrev pub add_ℕ : ℤ → ℕ → ℤ
add_ℕ z n = sub_ℕ (pos_part z + n) (neg_part z)

abbrev pub times_ℕ : ℤ → ℕ → ℤ
times_ℕ z n = sub_ℕ (pos_part z * n) (neg_part z * n)

pub record Date : Type 0 where
  pub year : ℤ
  pub month : ℕ
  pub day : ℕ

pub record Civil : Type 0 where
  pub date : Date
  pub hour : ℕ
  pub minute : ℕ
  pub second : ℕ

unfoldable pub year_of_era : ℕ → ℕ
year_of_era doe = (doe - doe / 1_460 + doe / 36_524 - doe / 146_096) / 365

unfoldable pub day_of_year : ℕ → ℕ
unfolding year_of_era
day_of_year doe = let yoe = year_of_era doe in doe - (365 * yoe + yoe / 4 - yoe / 100)

unfoldable pub shifted_month : ℕ → ℕ
shifted_month doy = (5 * doy + 2) / 153

unfoldable pub month_of : ℕ → ℕ
unfolding shifted_month
month_of doy = if ltb (shifted_month doy) 10 then shifted_month doy + 3 else shifted_month doy - 9

unfoldable pub day_of : ℕ → ℕ
unfolding shifted_month
day_of doy = doy - (153 * shifted_month doy + 2) / 5 + 1

-- The first months of a year belong to the shifted year before it.
unfoldable pub civil_year : ℕ → ℕ
civil_year doe = if leb (month_of (day_of_year doe)) 2 then year_of_era doe + 1 else year_of_era doe

unfoldable pub civil_from_unix_seconds : ℤ → Civil
civil_from_unix_seconds seconds =
    let days = div_euclid seconds 86_400 in
    let time_of_day = rem_euclid seconds 86_400 in
    let z = add_ℕ days 719_468 in
    let era = div_euclid z 146_097 in
    let doe = rem_euclid z 146_097 in
    record {
      date = record {
        year = add_ℕ (times_ℕ era 400) (civil_year doe);
        month = month_of (day_of_year doe);
        day = day_of (day_of_year doe);
      };
      hour = time_of_day / 3_600;
      minute = time_of_day % 3_600 / 60;
      second = time_of_day % 60;
    }

-- The reference: the Gregorian leap years, the lengths of the months, and the next second.
abbrev pub is_leap : ℤ → Bool
is_leap y = rem_euclid y 4 == 0 && (not (rem_euclid y 100 == 0) || rem_euclid y 400 == 0)

abbrev pub days_in_month : Bool → ℕ → ℕ
days_in_month leap m =
    if m == 2
    then (if leap then 29 else 28)
    else if (m == 4) || (m == 6) || (m == 9) || (m == 11)
    then 30
    else 31

abbrev pub next_day : Date → Date
next_day t =
    if ltb t.day (days_in_month (is_leap t.year) t.month)
    then record t { day = t.day + 1 }
    else if ltb t.month 12
    then record t { month = t.month + 1; day = 1 }
    else record { year = add_ℕ t.year 1; month = 1; day = 1 }

abbrev pub next_second : Civil → Civil
next_second c =
    if ltb c.second 59
    then record c { second = c.second + 1 }
    else if ltb c.minute 59
    then record c { minute = c.minute + 1; second = 0 }
    else if ltb c.hour 23
    then record c { hour = c.hour + 1; minute = 0; second = 0 }
    else record { date = next_day c.date; hour = 0; minute = 0; second = 0 }
