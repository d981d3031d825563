-- ===== src/Calendar/LeapRows.antt =====
-- The rows of the tables from February 29th on, of a leap year and of a common one.
use nihao_github_io.Base.{
  ℕ, ◌+◌, ◌≤◌, ◌<◌, ◌≡◌, refl, ◌⊎◌, inl, inr, Bool, true, false, ◌&&◌, ◌||◌, Option, none, some,
  ltb, leb, ◌==◌, get_elem?, arith,
}
use nihao_github_io.Base.Ranges.{all_below, all_below_sound}
use nihao_github_io.Calendar.{DateTime, days_to_month}
use nihao_github_io.Calendar.Tables.{day2md, mtod, mtod_rn, month_days}
use nihao_github_io.Calendar.Months.{IsMonthDay, Place, Row, place, month_len}

-- February 29th, or a later day of the year.
abbrev pub IsFromLeapDay : DateTime → Type 0
IsFromLeapDay t = (2 < t.month) ⊎ ((t.month ≡ 2) × (t.mday ≡ 29))

leap_day_ok : ℕ → Option ℕ → Bool
leap_day_ok m none = true
leap_day_ok m (some before) = (ltb m 2 || leb 31 before) && (ltb m 3 || leb 60 before)

leap_day_checked : all_below 13 (λ m. leap_day_ok m (days_to_month true m)) ≡ true
unfolding all_below leap_day_ok mtod mtod_rn days_to_month
leap_day_checked = refl

leap_day_before :
    (m before : ℕ) (o : Option ℕ)
    → o ≡ some before
    → leap_day_ok m o ≡ true
    → (2 ≤ m → 31 ≤ before) × (3 ≤ m → 60 ≤ before)
unfolding leap_day_ok
leap_day_before m before none e h = cc
leap_day_before m before (some b) e h = (λ p. ground arith, λ p. ground arith)

pub leap_day_place :
    (b : Bool) (t : DateTime)
    → b ≡ true
    → (p : Place b t.month t.mday) → IsMonthDay b t.month t.mday
    → IsFromLeapDay t
    → 59 ≤ p.place
leap_day_place false t e p v h = cc
leap_day_place true t e p v h =
    let (b, c) =
      leap_day_before t.month p.before (days_to_month true t.month) p.month
        (all_below_sound 13 _ t.month leap_day_checked (omega (arith, v.month_le))) in
    elim h [
      | inl later ↦ omega (arith, p.sum, v.day_pos, c later)
      | inr (m2, d29) ↦ omega (arith, p.sum, b (omega arith))
    ]

-- From the leap day on, a row of the common year's table is one day ahead in a leap year.
next_month_ok : ℕ → ℕ → ℕ → Option ℕ → Bool
next_month_ok r m day none = false
next_month_ok r m day (some before) =
    leb 1 m && (leb m 12 && (leb 1 day && (leb day (month_len true m) && (before + day == r + 2))))

next_row_ok : ℕ → Option (ℕ × ℕ) → Bool
unfolding next_month_ok
next_row_ok r none = false
next_row_ok r (some (m, day)) = next_month_ok r m day (days_to_month true m)

next_rows_checked : all_below 365 (λ r. ltb r 59 || next_row_ok r (get_elem? day2md r)) ≡ true
unfolding all_below next_row_ok day2md mtod mtod_rn month_days days_to_month
next_rows_checked = refl

next_month_lem :
    (r m day : ℕ) (o : Option ℕ)
    → days_to_month true m ≡ o
    → next_month_ok r m day o ≡ true
    → (before : ℕ) × (days_to_month true m ≡ some before)
      × (before + day ≡ r + 2)
      × IsMonthDay true m day
unfolding next_month_ok
next_month_lem r m day none e h = cc
next_month_lem r m day (some before) e h = (before, e, ground arith, ground arith)

pub next-Row :
    (r : ℕ) → 59 ≤ r → r < 365 → (w : Row false r) → (p : Place true w.m w.day) × (p.place ≡ r + 1)
unfolding next_row_ok
next-Row r lo hi w =
    let checked : (ltb r 59 || next_row_ok r (get_elem? day2md r)) ≡ true =
      all_below_sound 365 _ r next_rows_checked hi in
    let ok : next_row_ok r (some (w.m, w.day)) ≡ true = ground (arith, w.found) in
    let (before, e, sum, v) = next_month_lem r w.m w.day (days_to_month true w.m) refl ok in
    let p = place true w.m w.day v in (p, ground (arith, p.month, p.sum))
