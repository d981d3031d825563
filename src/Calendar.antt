-- ===== src/Calendar.antt =====
-- The calendar of ksources/utl_time.cpp: day numbers and time stamps against broken-down dates. A
-- day number counts from 1970-01-01. The source shifts it to a calendar that starts 110000 years
-- earlier, so that its C divisions have dividends that are not negative; the shifted numbers are ℕ
-- here. `none` stands for an input outside that calendar, for a read past the end of a table, or
-- for a sum that is too large for the source's `int` or `int64`, of which C says nothing.
pub mod Tables
pub mod Years
pub mod Months
pub mod Numbers
pub mod Reform
pub mod Dates
mod Tests
pub mod Times
pub mod Stamps
pub mod LeapRows
pub mod Centuries
pub mod Inverse
pub mod RoundTrip
use nihao_github_io.Base.{
  ℕ, zero, suc, ◌+◌, ◌-◌, ◌*◌, ◌/◌, ◌%◌, ◌^◌, Bool, true, false, ◌&&◌, ◌||◌, Option, none, some,
  ltb, leb, ◌==◌, if◌then◌else◌, get_elem?, not,
}
use nihao_github_io.Base.Int.{ℤ, pos, negsuc, ◌+ℤ◌, ◌*ℤ◌, ltb_ℤ, sub_ℕ}
use Tables.{day2md, day2md_rn, mtod, mtod_rn}

-- The fields that these functions read or write.
pub record DateTime : Type 0 where
  pub year : ℤ
  pub month : ℕ
  pub mday : ℕ
  pub wday : ℕ
  pub s : ℕ
  pub us : ℕ

-- The macro `IsRn`.
unfoldable pub is_rn : ℕ → Bool
is_rn y = (y % 400 == 0) || ((y % 4 == 0) && not (y % 100 == 0))

-- The days of the shifted calendar before year `y`, as both directions compute them.
unfoldable pub julian_days : ℕ → ℕ
julian_days y = y * 365 + (y - 1) / 4

unfoldable pub gregorian_days : ℕ → ℕ
gregorian_days y = y * 365 + (y - 1) / 4 - (y - 1) / 100 + (y - 1) / 400

-- The first guess at the year of day `d`, which may be one too small.
unfoldable pub julian_guess : ℕ → ℕ
julian_guess d = let d1 = d - 10 in d1 / 1461 * 4 + d1 % 1461 / 365

unfoldable pub gregorian_guess : ℕ → ℕ
gregorian_guess d =
    let d1 = d - 10 in
    let d2 = d1 % 146097 in
    let d3 = d2 % 36524 in d1 / 146097 * 400 + d2 / 36524 * 100 + d3 / 1461 * 4 + d3 % 1461 / 365

-- `if (d >= 365) …`: on to the next year when day `d` lies past the end of year `y`.
unfoldable pub carry_year : ℕ × ℕ → ℕ × ℕ
unfolding is_rn
carry_year (y, d) =
    if ltb d 365
    then (y, d)
    else if is_rn y
    then (if ltb 365 d then (y + 1, d - 366) else (y, d))
    else (y + 1, d - 365)

unfoldable pub julian_split : ℕ → ℕ × ℕ
unfolding julian_guess julian_days carry_year
julian_split d = let y = julian_guess d in carry_year (y, d - julian_days y)

unfoldable pub gregorian_split : ℕ → ℕ × ℕ
unfolding gregorian_guess gregorian_days carry_year
gregorian_split d = let y = gregorian_guess d in carry_year (y, d - gregorian_days y)

-- The fields of a row of the tables, `none` past their end.
unfoldable pub row_tm : ℕ → ℕ → ℕ → ℕ → Option (ℕ × ℕ) → Option DateTime
row_tm y wday s us none = none
row_tm y wday s us (some (m, day)) =
    some (record { year = sub_ℕ y 110000; month = m; mday = day; wday = wday; s = s; us = us })

-- The fields of day `d` of the shifted year `y`, read from the tables.
unfoldable pub fill : ℕ × ℕ → ℕ → ℕ → ℕ → Option DateTime
unfolding is_rn row_tm
fill (y, d) wday s us = row_tm y wday s us (get_elem? (if is_rn y then day2md_rn else day2md) d)

-- `v + k`, where that is not negative.
unfoldable pub shift : ℕ → ℤ → Option ℕ
shift k (pos n) = some (n + k)
shift k (negsuc n) = if ltb n k then some (k - n - 1) else none

-- A number that a signed integer with that limit can hold.
unfoldable pub fit_int : ℕ → Option ℕ → Option ℕ
fit_int limit none = none
fit_int limit (some n) = if ltb n limit then some n else none

unfoldable pub julian_tm : Option ℕ → ℕ → ℕ → Option DateTime
unfolding julian_split fill
julian_tm none s us = none
julian_tm (some d) s us = if d == 0 then none else fill (julian_split d) ((d - 1) % 7) s us

unfoldable pub gregorian_tm : Option ℕ → ℕ → ℕ → Option DateTime
unfolding gregorian_split fill
gregorian_tm none s us = none
gregorian_tm (some d) s us = if d == 0 then none else fill (gregorian_split d) (d % 7) s us

-- `date2tm`: day numbers before 1582-10-15 are read in the Julian calendar.
unfoldable pub date2tm : ℤ → Option DateTime
unfolding shift fit_int julian_tm gregorian_tm
date2tm date =
    if ltb_ℤ date (negsuc 141426)
    then julian_tm (shift 40897029 date) 0 0
    else gregorian_tm (fit_int (2 ^ 31) (shift 40896202 date)) 0 0

-- A time stamp in microseconds, cut into the day, its seconds and its microseconds.
unfoldable pub stamp_tm : (Option ℕ → ℕ → ℕ → Option DateTime) → Option ℕ → Option DateTime
stamp_tm tm none = none
stamp_tm tm (some t) =
    let us = t % 1000000 in let t' = t / 1000000 in tm (some (t' / 86400)) (t' % 86400) us

unfoldable pub dt2tm : ℤ → Option DateTime
unfolding shift fit_int julian_tm gregorian_tm stamp_tm
dt2tm t =
    if ltb_ℤ t (negsuc 12219292799999999)
    then stamp_tm julian_tm (shift 3533503305600000000 t)
    else stamp_tm gregorian_tm (fit_int (2 ^ 63) (shift 3533431852800000000 t))

-- `y < 1582 || y == 1582 && (m < 10 || m == 10 && d < 5)`.
unfoldable pub is_julian : DateTime → Bool
is_julian t =
    ltb_ℤ t.year (pos 1582)
    || (not (ltb_ℤ (pos 1582) t.year) && (ltb t.month 10 || ((t.month == 10) && ltb t.mday 5)))

-- `mtod[rn][m - 1]`.
unfoldable pub days_to_month : Bool → ℕ → Option ℕ
days_to_month rn zero = none
days_to_month rn (suc m) = get_elem? (if rn then mtod_rn else mtod) m

-- The day number from the shifted year, the days before the month and the day of the month.
unfoldable pub day_number : ℕ → ℕ → Option ℕ → ℕ → Option ℤ
day_number base days none mday = none
day_number base days (some before) mday =
    if ltb (mday + before) (2 ^ 31) && leb (mday + before + days) (2 ^ 31)
    then some (sub_ℕ (mday + before + days) (base + 1))
    else none

unfoldable pub julian_date : DateTime → Option ℕ → Option ℤ
unfolding day_number days_to_month julian_days
julian_date t none = none
julian_date t (some y) =
    day_number 40897029 (julian_days y) (days_to_month (y % 4 == 0) t.month) t.mday

-- `(y & 3) == 0 && y % 100 != 0 || y % 400 == 0`.
unfoldable pub is_leap : ℕ → Bool
is_leap y = ((y % 4 == 0) && not (y % 100 == 0)) || (y % 400 == 0)

unfoldable pub gregorian_date : DateTime → Option ℕ → Option ℤ
unfolding day_number days_to_month gregorian_days is_leap
gregorian_date t none = none
gregorian_date t (some y) =
    day_number 40896202 (gregorian_days y) (days_to_month (is_leap y) t.month) t.mday

-- `tm2date`: dates before 1582-10-05 are written in the Julian calendar.
unfoldable pub tm2date : DateTime → Option ℤ
unfolding is_julian shift julian_date gregorian_date
tm2date t =
    if is_julian t
    then julian_date t (shift 110000 t.year)
    else gregorian_date t (shift 110000 t.year)

-- `tm2dt`: the same day number, in microseconds.
unfoldable pub stamp : ℕ → ℕ → Option ℤ → Option ℤ
unfolding ◌+ℤ◌ ◌*ℤ◌
stamp s us none = none
stamp s us (some d) =
    let t = (d *ℤ pos 86400 +ℤ pos s) *ℤ pos 1000000 +ℤ pos us in
    if ltb_ℤ t (pos (2 ^ 63)) then some t else none

unfoldable pub tm2dt : DateTime → Option ℤ
unfolding is_julian shift julian_date gregorian_date stamp
tm2dt t =
    if is_julian t
    then stamp t.s t.us (julian_date t (shift 110000 t.year))
    else stamp t.s t.us (gregorian_date t (shift 110000 t.year))
