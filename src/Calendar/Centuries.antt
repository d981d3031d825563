-- ===== src/Calendar/Centuries.antt =====
-- Julian century years. The macro `IsRn` is the Gregorian rule, and `date2tm` uses it on Julian
-- dates too, so that it takes the Julian leap years 1500, 1400, 1300, 1100, … for common years.
use nihao_github_io.Base.{
  ℕ, ◌+◌, ◌-◌, ◌%◌, ◌^◌, ◌≤◌, ◌<◌, ◌≡◌, refl, ap, subst, ◌∙◌, inl, inr, Bool, true, false, some,
  ltb, if◌then◌else◌, get_elem?, arith,
}
use native.Mathlib.Decide.{dec_lt}
use nihao_github_io.Base.Int.{ℤ, pos, sub_ℕ, ◌+ℤ◌}
use nihao_github_io.Calendar.{
  DateTime, is_rn, julian_days, julian_guess, tm2date, date2tm, julian_split, julian_tm, carry_year,
  days_to_month,
}
use nihao_github_io.Calendar.Tables.{day2md, day2md_rn, mtod}
use nihao_github_io.Calendar.Years.{
  julian_leap, guess_lem, julian_guess_bounds, julian_days-suc, IsJulianDay,
}
use nihao_github_io.Calendar.Months.{Place, row, md_table}
use nihao_github_io.Calendar.Reform.{is_julian-IsBeforeReform}
use nihao_github_io.Calendar.Dates.{tm, fill_lem, julian_date_lem}
use nihao_github_io.Calendar.RoundTrip.{
  IsDate, julian_number, julian_day, julian_days_min, date2tm_before, tm2date_before,
}
use nihao_github_io.Calendar.LeapRows.{IsFromLeapDay, leap_day_place, next-Row}

-- A Julian leap year that the macro does not see.
pub record IsMissed (y : ℕ) : Type 0 where
  pub leap : julian_leap y ≡ true
  pub unseen : is_rn y ≡ false

missed_guess : (d y r : ℕ) → 1095 ≤ d → IsJulianDay d y r → 59 ≤ r → julian_guess d ≡ y
missed_guess d y r least v h =
    let (a, b, c) = julian_guess_bounds d (omega arith) in
    let g = julian_guess d in
    elim (guess_lem julian_days julian_leap julian_days-suc g d y r a b c v) [
      | inl e ↦ e
      | inr e ↦ absurd (ground (arith, e, julian_days-suc g a, v.number))
    ]

missed_split :
    (d y r : ℕ)
    → 1095 ≤ d
    → IsJulianDay d y r
    → 59 ≤ r
    → IsMissed y
    → julian_split d ≡ (if ltb r 365 then (y, r) else (y + 1, 0))
unfolding julian_split carry_year
missed_split d y r least v h missed =
    rw (missed_guess d y r least v h)
      (ground (arith, v.number, v.within, missed.leap, missed.unseen))

-- What `date2tm` returns for such a day: a date whose own number is the next one.
record IsLate (n : ℤ) : Type 0 where
  u : DateTime
  read : date2tm n ≡ some u
  number : tm2date u ≡ some (n +ℤ pos 1)

sub_ℕ-add : (d k : ℕ) → sub_ℕ (d + 1) k ≡ sub_ℕ d k +ℤ pos 1
unfolding ◌+ℤ◌
sub_ℕ-add d k = ground arith

julian_tm_of_split :
    (d y r m day : ℕ)
    → 1 ≤ d
    → julian_split d ≡ (y, r)
    → get_elem? (md_table (is_rn y)) r ≡ some (m, day)
    → julian_tm (some d) 0 0 ≡ some (tm y m day ((d - 1) % 7) 0 0)
unfolding julian_tm
julian_tm_of_split d y r m day h e f = ground (arith, fill_lem y m day r ((d - 1) % 7) 0 0 f)

julian_days_lt : (y : ℕ) → y < 111582 → julian_days y + 366 < 2 ^ 31
unfolding julian_days
julian_days_lt y h = omega arith

julian_number_of :
    (u : DateTime) (y r : ℕ) (b : Bool)
    → u.year ≡ sub_ℕ y 110000
    → y < 111582
    → julian_leap y ≡ b
    → (p : Place b u.month u.mday) → julian_days y + p.place ≡ r
    → tm2date u ≡ some (sub_ℕ r 40897029)
julian_number_of u y r b year old e =
    subst
      (λ c.
        (p : Place c u.month u.mday)
        → julian_days y + p.place ≡ r
        → tm2date u ≡ some (sub_ℕ r 40897029))
      e
      (λ p q.
        tm2date_before u y year (is_julian-IsBeforeReform u y year (inl old))
        ∙ julian_date_lem u y p (ground (arith, p.within, old, julian_days_lt y old))
        ∙ ap (λ x. some (sub_ℕ x 40897029)) q)

missed_inside :
    (d y r : ℕ)
    → 1095 ≤ d
    → d ≤ 40755601
    → IsJulianDay d y r
    → 59 ≤ r
    → r < 365
    → IsMissed y
    → y < 111580
    → IsLate (sub_ℕ d 40897029)
missed_inside d y r least early v h hi missed old =
    let w = row false r hi in
    let (p, e) = next-Row r h hi w in
    let split : julian_split d ≡ (y, r) = ground (arith, missed_split d y r least v h missed) in
    let u = tm y w.m w.day ((d - 1) % 7) 0 0 in
    record {
      u = u;
      read =
          date2tm_before d early
          ∙ julian_tm_of_split d y r w.m w.day (omega arith) split (rw missed.unseen w.found);
      number =
          julian_number_of u y (d + 1) true refl (omega arith) missed.leap p
            (omega (arith, v.number))
          ∙ ap some (sub_ℕ-add d 40897029);
    }

first_of_january : (b : Bool) → get_elem? (md_table b) 0 ≡ some (1, 1)
unfolding day2md day2md_rn
first_of_january true = refl
first_of_january false = refl

january : Place false 1 1
unfolding day2md mtod days_to_month
january = record {
  before = 0;
  place = 0;
  month = refl;
  sum = refl;
  within = omega arith;
  found = refl;
}

missed_last :
    (d y r : ℕ)
    → 1095 ≤ d
    → d ≤ 40755601
    → IsJulianDay d y r
    → 365 ≤ r
    → IsMissed y
    → y < 111580
    → IsLate (sub_ℕ d 40897029)
unfolding january
missed_last d y r least early v lo missed old =
    let split : julian_split d ≡ (y + 1, 0) =
      ground (arith, missed_split d y r least v (omega arith) missed) in
    let u = tm (y + 1) 1 1 ((d - 1) % 7) 0 0 in
    record {
      u = u;
      read =
          date2tm_before d early
          ∙ julian_tm_of_split d (y + 1) 0 1 1 (omega arith) split
              (first_of_january (is_rn (y + 1)));
      number =
          julian_number_of u (y + 1) (d + 1) false refl (omega arith) (ground (arith, missed.leap))
            january (ground (arith, v.number, v.within, missed.leap, julian_days-suc y v.year_pos))
          ∙ ap some (sub_ℕ-add d 40897029);
    }

-- In a Julian leap year that the macro `IsRn` takes for a common one, from February 29th to the
-- end of the year, `date2tm` is one day ahead: it reads the number of a date as a date whose own
-- number is the next one.
pub date2tm-tm2date_missed :
    (t : DateTime) (y : ℕ)
    → IsDate julian_leap t y
    → IsMissed y
    → y < 111580
    → IsFromLeapDay t
    → (n : ℤ) × (u : DateTime) × (tm2date t ≡ some n)
      × (date2tm n ≡ some u)
      × (tm2date u ≡ some (n +ℤ pos 1))
date2tm-tm2date_missed t y v missed old from =
    let (p, early, e) = julian_number t y v (inl (omega arith)) in
    let d = julian_days y + p.place in
    let least : 1095 ≤ d = omega (arith, julian_days_min y v.year_min) in
    let place_min : 59 ≤ p.place =
      leap_day_place (julian_leap y) t missed.leap p v.day_valid from in
    let late : IsLate (sub_ℕ d 40897029) = elim (dec_lt p.place 365) [
      | yes in_year ↦
          missed_inside d y p.place least early (julian_day t y v p) place_min in_year missed old
      | no last ↦ missed_last d y p.place least early (julian_day t y v p) (omega arith) missed old
    ] in
    (sub_ℕ d 40897029, late.u, e, late.read, late.number)
