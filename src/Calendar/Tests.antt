-- ===== src/Calendar/Tests.antt =====
-- Runs of the calendar functions, and the theorems at concrete dates.
use nihao_github_io.Base.{ℕ, ◌+◌, ◌≡◌, refl, inl, inr, some, arith}
use nihao_github_io.Base.Int.{ℤ, pos, negsuc, sub_ℕ, ◌+ℤ◌}
use nihao_github_io.Calendar.{DateTime, is_rn, julian_days, tm2date, date2tm, tm2dt, dt2tm}
use nihao_github_io.Calendar.Tables.{day2md, day2md_rn, mtod, mtod_rn, month_days}
use nihao_github_io.Calendar.Years.{julian_leap, IsPlain}
use nihao_github_io.Calendar.RoundTrip.{
  IsDate, weekday, at_midnight, date2tm-tm2date_gregorian, date2tm-tm2date_julian,
}
use nihao_github_io.Calendar.Inverse.{Reads, tm2date-date2tm_julian}
use nihao_github_io.Calendar.Centuries.{date2tm-tm2date_missed}
use nihao_github_io.Calendar.Stamps.{stamp_of}
use nihao_github_io.Calendar.Times.{dt2tm-tm2dt_gregorian}

tables : Unit {0}
unfolding day2md day2md_rn mtod mtod_rn month_days date2tm tm2date tm2dt dt2tm ◌+ℤ◌
tables = tt

abbrev ymd : ℤ → ℕ → ℕ → ℕ → ℕ → ℕ → DateTime
ymd y m d w s us = record { year = y; month = m; mday = d; wday = w; s = s; us = us }

abbrev leap_day : DateTime
leap_day = ymd (pos 2024) 2 29 4 3661 250000

-- The last day of the Julian calendar, in use.
abbrev last_julian : DateTime
last_julian = ymd (pos 1582) 10 4 0 0 0

abbrev missed_day : DateTime
missed_day = ymd (pos 1500) 2 29 0 0 0

epoch_runs : date2tm (pos 0) ≡ some (ymd (pos 1970) 1 1 4 0 0)
unfolding tables
epoch_runs = refl

reform_runs :
    (tm2date last_julian ≡ some (negsuc 141427))
    × (date2tm (negsuc 141426) ≡ some (ymd (pos 1582) 10 15 5 0 0))
unfolding tables
reform_runs = (refl, refl)

stamp_runs :
    (tm2dt leap_day ≡ some (pos 1709168461250000))
    × (dt2tm (pos 1709168461250000) ≡ some leap_day)
    × (dt2tm (negsuc 0) ≡ some (ymd (pos 1969) 12 31 3 86399 999999))
unfolding tables
stamp_runs = (refl, refl, refl)

missed_runs : date2tm (negsuc 171595) ≡ some (ymd (pos 1500) 3 1 6 0 0)
unfolding tables
missed_runs = refl

leap_day-IsDate : IsDate is_rn leap_day 112024
unfolding tables is_rn
leap_day-IsDate = record { year_is = refl; year_min = omega arith; day_valid = omega arith }

last_julian-IsDate : IsDate julian_leap last_julian 111582
unfolding tables
last_julian-IsDate = record { year_is = refl; year_min = omega arith; day_valid = omega arith }

last_julian-IsPlain : IsPlain 111582
unfolding is_rn
last_julian-IsPlain = record { this = refl; last = refl }

missed_day-IsDate : IsDate julian_leap missed_day 111500
unfolding tables
missed_day-IsDate = record { year_is = refl; year_min = omega arith; day_valid = omega arith }

date2tm-tm2date_gregorian_example :
    (n : ℤ) × (tm2date leap_day ≡ some n) × (date2tm n ≡ some (at_midnight leap_day (weekday n)))
date2tm-tm2date_gregorian_example =
    date2tm-tm2date_gregorian leap_day 112024 leap_day-IsDate (inl (omega arith)) (omega arith)

date2tm-tm2date_julian_example :
    (n : ℤ) × (tm2date last_julian ≡ some n)
    × (date2tm n ≡ some (at_midnight last_julian (weekday n)))
date2tm-tm2date_julian_example =
    date2tm-tm2date_julian last_julian 111582 last_julian-IsDate last_julian-IsPlain
      (inr (refl, inr (refl, omega arith)))

tm2date-date2tm_julian_example : Reads julian_leap (sub_ℕ (julian_days 111582 + 276) 40897029)
tm2date-date2tm_julian_example =
    tm2date-date2tm_julian 111582 276 (omega arith) (omega arith) last_julian-IsPlain
      (unfold julian_days in omega arith)

date2tm-tm2date_missed_example :
    (n : ℤ) × (u : DateTime) × (tm2date missed_day ≡ some n)
    × (date2tm n ≡ some u)
    × (tm2date u ≡ some (n +ℤ pos 1))
unfolding is_rn
date2tm-tm2date_missed_example =
    date2tm-tm2date_missed missed_day 111500 missed_day-IsDate
      (record { leap = refl; unseen = refl }) (omega arith) (inr (refl, refl))

dt2tm-tm2dt_gregorian_example :
    (n : ℤ) × (tm2dt leap_day ≡ some (stamp_of n 3661 250000))
    × (dt2tm (stamp_of n 3661 250000) ≡ some (record leap_day { wday = weekday n }))
dt2tm-tm2dt_gregorian_example =
    dt2tm-tm2dt_gregorian leap_day 112024 leap_day-IsDate (inl (omega arith))
      (record { second = omega arith; micro = omega arith }) (omega arith)
