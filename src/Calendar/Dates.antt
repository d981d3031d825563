-- ===== src/Calendar/Dates.antt =====
-- Round trips between day numbers and dates, in the two calendars.
use nihao_github_io.Base.{ℕ, ◌+◌, ◌-◌, ◌%◌, ◌^◌, ◌≤◌, ◌<◌, ◌≡◌, some, get_elem?, arith}
use nihao_github_io.Base.Int.{sub_ℕ}
use nihao_github_io.Calendar.{
  DateTime, is_rn, fill, julian_days, gregorian_days, julian_date, gregorian_date, is_leap,
  gregorian_tm, julian_tm, day_number,
}
use nihao_github_io.Calendar.Years.{
  IsGregorianDay, IsJulianDay, IsPlain, julian_leap, gregorian_split_lem, julian_split_lem,
}
use nihao_github_io.Calendar.Months.{Place, md_table}

abbrev pub tm : ℕ → ℕ → ℕ → ℕ → ℕ → ℕ → DateTime
tm y m day w s us = record {
  year = sub_ℕ y 110000;
  month = m;
  mday = day;
  wday = w;
  s = s;
  us = us;
}

pub fill_lem :
    (y m day r w s us : ℕ)
    → get_elem? (md_table (is_rn y)) r ≡ some (m, day)
    → fill (y, r) w s us ≡ some (tm y m day w s us)
unfolding fill
fill_lem y m day r w s us h = rw h

pub gregorian_tm_lem :
    (d y m day r s us : ℕ)
    → 376 ≤ d
    → IsGregorianDay d y r
    → get_elem? (md_table (is_rn y)) r ≡ some (m, day)
    → gregorian_tm (some d) s us ≡ some (tm y m day (d % 7) s us)
unfolding gregorian_tm
gregorian_tm_lem d y m day r s us h v e =
    ground (arith, gregorian_split_lem d y r h v, fill_lem y m day r (d % 7) s us e)

pub julian_tm_lem :
    (d y m day r s us : ℕ)
    → 376 ≤ d
    → IsJulianDay d y r
    → IsPlain y
    → get_elem? (md_table (is_rn y)) r ≡ some (m, day)
    → julian_tm (some d) s us ≡ some (tm y m day ((d - 1) % 7) s us)
unfolding julian_tm
julian_tm_lem d y m day r s us h v p e =
    ground (arith, julian_split_lem d y r h v p, fill_lem y m day r ((d - 1) % 7) s us e)

-- The sums of the source, where they fit.
day_number_lem :
    (base days before mday n : ℕ)
    → mday + before < 2 ^ 31
    → mday + before + days ≡ n + 1
    → n < 2 ^ 31
    → day_number base days (some before) mday ≡ some (sub_ℕ n base)
unfolding day_number
day_number_lem base days before mday n a e h = ground (arith, a, e, h)

is_leap-is_rn : (y : ℕ) → is_leap y ≡ is_rn y
unfolding is_leap is_rn
is_leap-is_rn y = ground arith

pub gregorian_date_lem :
    (t : DateTime) (y : ℕ) (p : Place (is_rn y) t.month t.mday)
    → gregorian_days y + p.place < 2 ^ 31
    → gregorian_date t (some y) ≡ some (sub_ℕ (gregorian_days y + p.place) 40896202)
unfolding gregorian_date
gregorian_date_lem t y p h =
    rw (is_leap-is_rn y, p.month)
      (day_number_lem 40896202 (gregorian_days y) p.before t.mday (gregorian_days y + p.place)
        (ground (arith, p.sum, p.within)) (omega (arith, p.sum)) h)

pub julian_date_lem :
    (t : DateTime) (y : ℕ) (p : Place (julian_leap y) t.month t.mday)
    → julian_days y + p.place < 2 ^ 31
    → julian_date t (some y) ≡ some (sub_ℕ (julian_days y + p.place) 40897029)
unfolding julian_date
julian_date_lem t y p h = rw p.month (
    day_number_lem 40897029 (julian_days y) p.before t.mday (julian_days y + p.place)
      (ground (arith, p.sum, p.within)) (omega (arith, p.sum)) h)
