-- ===== src/Calendar/RoundTrip.antt =====
-- Round trips between day numbers and dates.
use nihao_github_io.Base.{
  ℕ, ◌+◌, ◌-◌, ◌%◌, ◌^◌, ◌≤◌, ◌<◌, ◌≡◌, refl, sym, ap, ◌∙◌, Bool, true, false, some, arith,
}
use nihao_github_io.Base.Int.{ℤ, sub_ℕ, pos_part, neg_part}
use nihao_github_io.Calendar.{
  DateTime, is_rn, julian_days, gregorian_days, is_julian, tm2date, date2tm, julian_date,
  gregorian_date, julian_tm, gregorian_tm,
}
use nihao_github_io.Calendar.Numbers.{shift-sub_ℕ, fit_int-some, ltb_ℤ-sub_ℕ, ltb_ℤ-sub_ℕ_ge}
use nihao_github_io.Calendar.Years.{IsGregorianDay, IsJulianDay, IsPlain, julian_leap}
use nihao_github_io.Calendar.Months.{IsMonthDay, Place, place}
use nihao_github_io.Calendar.Reform.{
  IsAfterReform, IsBeforeReform, is_julian-IsAfterReform, is_julian-IsBeforeReform, gregorian_after,
  julian_before,
}
use nihao_github_io.Calendar.Dates.{
  tm, gregorian_tm_lem, julian_tm_lem, gregorian_date_lem, julian_date_lem,
}

-- The day of the week of a day number, from Sunday, 0; day 0 is a Thursday.
abbrev pub weekday : ℤ → ℕ
weekday n = (pos_part n + 40896202 - neg_part n) % 7

pub gregorian_weekday : (d : ℕ) → weekday (sub_ℕ d 40896202) ≡ d % 7
gregorian_weekday d = ground arith

pub julian_weekday : (d : ℕ) → 827 ≤ d → weekday (sub_ℕ d 40897029) ≡ (d - 1) % 7
julian_weekday d h = ground arith

-- The two sides of the reform as one computation each.
pub tm2date_after :
    (t : DateTime) (y : ℕ)
    → t.year ≡ sub_ℕ y 110000
    → is_julian t ≡ false
    → tm2date t ≡ gregorian_date t (some y)
unfolding tm2date
tm2date_after t y e h = rw (h, e, shift-sub_ℕ y 110000)

pub tm2date_before :
    (t : DateTime) (y : ℕ)
    → t.year ≡ sub_ℕ y 110000
    → is_julian t ≡ true
    → tm2date t ≡ julian_date t (some y)
unfolding tm2date
tm2date_before t y e h = rw (h, e, shift-sub_ℕ y 110000)

pub date2tm_after :
    (d : ℕ) → 40754775 ≤ d → d < 2 ^ 31 → date2tm (sub_ℕ d 40896202) ≡ gregorian_tm (some d) 0 0
unfolding date2tm
date2tm_after d h max =
    rw
      (
        ltb_ℤ-sub_ℕ_ge d 40896202 141426 (omega arith),
        shift-sub_ℕ d 40896202,
        fit_int-some (2 ^ 31) d max,
      )
      refl

pub date2tm_before : (d : ℕ) → d ≤ 40755601 → date2tm (sub_ℕ d 40897029) ≡ julian_tm (some d) 0 0
unfolding date2tm
date2tm_before d h = rw (ltb_ℤ-sub_ℕ d 40897029 141426 (omega arith), shift-sub_ℕ d 40897029)

-- A date of the calendar, under either rule of leap years: `y` is the shifted year.
pub record IsDate (leap : ℕ → Bool) (t : DateTime) (y : ℕ) : Type 0 where
  pub year_is : t.year ≡ sub_ℕ y 110000
  pub year_min : 3 ≤ y
  pub day_valid : IsMonthDay (leap y) t.month t.mday

abbrev pub at_midnight : DateTime → ℕ → DateTime
at_midnight t w = record t { wday = w; s = 0; us = 0 }

pub tm-record :
    (t : DateTime) (y w s us : ℕ)
    → t.year ≡ sub_ℕ y 110000
    → tm y t.month t.mday w s us ≡ record t { wday = w; s = s; us = us }
tm-record t y w s us e = rw e

pub gregorian_days_min : (y : ℕ) → 3 ≤ y → 1095 ≤ gregorian_days y
unfolding gregorian_days
gregorian_days_min y h = omega arith

pub julian_days_min : (y : ℕ) → 3 ≤ y → 1095 ≤ julian_days y
unfolding julian_days
julian_days_min y h = omega arith

-- The last year whose days the source can number.
pub gregorian_days_max : (y : ℕ) → y ≤ 5879000 → gregorian_days y + 366 < 2 ^ 31
unfolding gregorian_days
gregorian_days_max y h = omega arith

-- The number of a date, under the rule that its side of the reform calls for.
pub gregorian_number :
    (t : DateTime) (y : ℕ)
    → IsDate is_rn t y
    → IsAfterReform y t.month t.mday
    → y ≤ 5879000
    → (p : Place (is_rn y) t.month t.mday) × (40754775 ≤ gregorian_days y + p.place)
      × (tm2date t ≡ some (sub_ℕ (gregorian_days y + p.place) 40896202))
gregorian_number t y v after max =
    let p = place (is_rn y) t.month t.mday v.day_valid in
    (
      p,
      gregorian_after y t.month t.mday p v.day_valid.month_le after,
      tm2date_after t y v.year_is (is_julian-IsAfterReform t y v.year_is after)
          ∙ gregorian_date_lem t y p (ground (arith, p.within, gregorian_days_max y max)),
    )

pub julian_number :
    (t : DateTime) (y : ℕ)
    → IsDate julian_leap t y
    → IsBeforeReform y t.month t.mday
    → (p : Place (julian_leap y) t.month t.mday) × (julian_days y + p.place ≤ 40755601)
      × (tm2date t ≡ some (sub_ℕ (julian_days y + p.place) 40897029))
julian_number t y v before =
    let p = place (julian_leap y) t.month t.mday v.day_valid in
    (
      p,
      julian_before y t.month t.mday p v.day_valid before,
      tm2date_before t y v.year_is (is_julian-IsBeforeReform t y v.year_is before)
          ∙ julian_date_lem t y p
              (omega (arith, julian_before y t.month t.mday p v.day_valid before)),
    )

pub gregorian_day :
    (t : DateTime) (y : ℕ)
    → IsDate is_rn t y
    → (p : Place (is_rn y) t.month t.mday) → IsGregorianDay (gregorian_days y + p.place) y p.place
gregorian_day t y v p = record {
  year_pos = omega (arith, v.year_min);
  number = refl;
  within = p.within;
}

pub julian_day :
    (t : DateTime) (y : ℕ)
    → IsDate julian_leap t y
    → (p : Place (julian_leap y) t.month t.mday) → IsJulianDay (julian_days y + p.place) y p.place
julian_day t y v p = record {
  year_pos = omega (arith, v.year_min);
  number = refl;
  within = p.within;
}

-- A date from the reform on, read from its number.
pub gregorian_read :
    (t : DateTime) (y : ℕ) (v : IsDate is_rn t y) (p : Place (is_rn y) t.month t.mday)
    → 40754775 ≤ gregorian_days y + p.place
    → y ≤ 5879000
    → date2tm (sub_ℕ (gregorian_days y + p.place) 40896202)
      ≡ some (at_midnight t (weekday (sub_ℕ (gregorian_days y + p.place) 40896202)))
gregorian_read t y v p late max =
    let d = gregorian_days y + p.place in
    date2tm_after d late (ground (arith, p.within, gregorian_days_max y max))
    ∙ gregorian_tm_lem d y t.month t.mday p.place 0 0 (omega (arith, late)) (gregorian_day t y v p)
        p.found
    ∙ ap some (tm-record t y (d % 7) 0 0 v.year_is ∙ ap (at_midnight t) (sym (gregorian_weekday d)))

-- A date from 1582-10-15 on to the end of the year 5769000 survives the way through its day number;
-- the time of day is reset and the day of the week is filled in.
pub date2tm-tm2date_gregorian :
    (t : DateTime) (y : ℕ)
    → IsDate is_rn t y
    → IsAfterReform y t.month t.mday
    → y ≤ 5879000
    → (n : ℤ) × (tm2date t ≡ some n) × (date2tm n ≡ some (at_midnight t (weekday n)))
date2tm-tm2date_gregorian t y v after max =
    let (p, late, e) = gregorian_number t y v after max in
    (sub_ℕ (gregorian_days y + p.place) 40896202, e, gregorian_read t y v p late max)

-- A date before 1582-10-05 survives the way through its day number too, in the Julian calendar,
-- where the leap-year macro agrees with the Julian rule for its year and for the year before; the
-- time of day is reset and the day of the week is filled in.
pub date2tm-tm2date_julian :
    (t : DateTime) (y : ℕ)
    → IsDate julian_leap t y
    → IsPlain y
    → IsBeforeReform y t.month t.mday
    → (n : ℤ) × (tm2date t ≡ some n) × (date2tm n ≡ some (at_midnight t (weekday n)))
date2tm-tm2date_julian t y v plain before =
    let (p, early, e) = julian_number t y v before in
    let d = julian_days y + p.place in
    let least = julian_days_min y v.year_min in
    (
      sub_ℕ d 40897029,
      e,
      date2tm_before d early
          ∙ julian_tm_lem d y t.month t.mday p.place 0 0 (omega (arith, least)) (julian_day t y v p)
              plain (rw plain.this p.found)
          ∙ ap some (
              tm-record t y ((d - 1) % 7) 0 0 v.year_is
              ∙ ap (at_midnight t) (sym (julian_weekday d (omega (arith, least))))),
    )
