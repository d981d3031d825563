-- ===== src/Calendar/Inverse.antt =====
-- From a day number to its date and back.
use nihao_github_io.Base.{ℕ, ◌+◌, ◌-◌, ◌%◌, ◌≤◌, ◌<◌, ◌≡◌, refl, sym, ap, ◌∙◌, Bool, some, arith}
use nihao_github_io.Base.Int.{ℤ, sub_ℕ}
use nihao_github_io.Calendar.{DateTime, julian_days, tm2date, date2tm}
use nihao_github_io.Calendar.Years.{IsJulianDay, IsPlain, julian_leap, year_len}
use nihao_github_io.Calendar.Months.{Place, Row, row}
use nihao_github_io.Calendar.Reform.{is_julian-IsBeforeReform, before_julian}
use nihao_github_io.Calendar.Dates.{tm, julian_tm_lem, julian_date_lem}
use nihao_github_io.Calendar.RoundTrip.{
  IsDate, tm2date_before, date2tm_before, weekday, julian_weekday, julian_days_min,
}

-- What a call of `date2tm` should return for day `n`.
pub record Reads (leap : ℕ → Bool) (n : ℤ) : Type 0 where
  pub t : DateTime
  pub y : ℕ
  pub date : IsDate leap t y
  pub read : date2tm n ≡ some t
  pub day : t.wday ≡ weekday n
  pub midnight : (t.s ≡ 0) × (t.us ≡ 0)
  pub back : tm2date t ≡ some n

row-Place : (rn : Bool) (r : ℕ) → r < year_len rn → (w : Row rn r) → Place rn w.m w.day
row-Place rn r h w = record {
  before = w.before;
  place = r;
  month = w.month;
  sum = w.sum;
  within = h;
  found = w.found;
}

julian_Reads :
    (d y r : ℕ)
    → d ≤ 40755601
    → 3 ≤ y
    → IsPlain y
    → IsJulianDay d y r
    → Reads julian_leap (sub_ℕ d 40897029)
unfolding row-Place
julian_Reads d y r early least plain v =
    let w = row (julian_leap y) r v.within in
    let p = row-Place (julian_leap y) r v.within w in
    let t = tm y w.m w.day ((d - 1) % 7) 0 0 in
    let before = before_julian y w.m w.day p w.valid (omega (arith, v.number)) in
    let d_min : 1095 ≤ d = omega (arith, julian_days_min y least, v.number) in
    record {
      t = t;
      y = y;
      date = record { year_is = refl; year_min = least; day_valid = w.valid };
      read =
          date2tm_before d early
          ∙ julian_tm_lem d y w.m w.day r 0 0 (omega arith) v plain (rw plain.this w.found);
      day = sym (julian_weekday d (omega arith));
      midnight = (refl, refl);
      back =
          tm2date_before t y refl (is_julian-IsBeforeReform t y refl before)
          ∙ julian_date_lem t y p (omega (arith, v.number))
          ∙ ap (λ x. some (sub_ℕ x 40897029)) v.number;
    }

-- Every day before 1582-10-15, from the third year of the shifted calendar on, has a valid Julian
-- date, read with the right day of the week, and `tm2date` leads back to the day, in years where
-- the leap-year macro agrees with the Julian rule, and did in the year before.
pub tm2date-date2tm_julian :
    (y r : ℕ)
    → 3 ≤ y
    → r < year_len (julian_leap y)
    → IsPlain y
    → julian_days y + r ≤ 40755601
    → Reads julian_leap (sub_ℕ (julian_days y + r) 40897029)
tm2date-date2tm_julian y r least within plain early =
    julian_Reads (julian_days y + r) y r early least plain
      (record { year_pos = omega arith; number = refl; within = within })
