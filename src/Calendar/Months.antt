-- ===== src/Calendar/Months.antt =====
-- The month tables agree with one another.
use nihao_github_io.Base.{
  ℕ, zero, suc, ◌+◌, ◌≤◌, ◌<◌, ◌≡◌, refl, Bool, true, false, ◌&&◌, ◌||◌, not, List, Option, none,
  some, ltb, leb, ◌==◌, if◌then◌else◌, get_elem?, get_or, arith,
}
use nihao_github_io.Base.Ranges.{all_below, all_below_sound}
use nihao_github_io.Calendar.{days_to_month}
use nihao_github_io.Calendar.Tables.{day2md, day2md_rn, mtod, mtod_rn, month_days}
use nihao_github_io.Calendar.Years.{year_len}

abbrev pub month_len : Bool → ℕ → ℕ
month_len rn m = get_or month_days m 0 + (if rn && (m == 2) then 1 else 0)

abbrev pub md_table : Bool → List (ℕ × ℕ)
md_table rn = if rn then day2md_rn else day2md

pub record IsMonthDay (rn : Bool) (m day : ℕ) : Type 0 where
  pub month_pos : 1 ≤ m
  pub month_le : m ≤ 12
  pub day_pos : 1 ≤ day
  pub day_le : day ≤ month_len rn m

-- The row of day `r` names a day of a month, and `mtod` leads back to `r`.
month_ok : Bool → ℕ → ℕ → ℕ → Option ℕ → Bool
month_ok rn r m day none = false
month_ok rn r m day (some before) =
    leb 1 m && (leb m 12 && (leb 1 day && (leb day (month_len rn m) && (before + day == r + 1))))

row_ok : Bool → ℕ → Option (ℕ × ℕ) → Bool
unfolding month_ok
row_ok rn r none = false
row_ok rn r (some (m, day)) = month_ok rn r m day (days_to_month rn m)

rows_checked :
    (rn : Bool) → all_below (year_len rn) (λ r. row_ok rn r (get_elem? (md_table rn) r)) ≡ true
unfolding all_below row_ok day2md day2md_rn mtod mtod_rn month_days days_to_month
rows_checked true = refl
rows_checked false = refl

-- What the table says of day `r`.
pub record Row (rn : Bool) (r : ℕ) : Type 0 where
  pub m : ℕ
  pub day : ℕ
  pub before : ℕ
  pub found : get_elem? (md_table rn) r ≡ some (m, day)
  pub month : days_to_month rn m ≡ some before
  pub valid : IsMonthDay rn m day
  pub sum : before + day ≡ r + 1

row_ok_lem :
    (rn : Bool) (r m day : ℕ) (o : Option ℕ)
    → get_elem? (md_table rn) r ≡ some (m, day)
    → days_to_month rn m ≡ o
    → month_ok rn r m day o ≡ true
    → Row rn r
unfolding month_ok
row_ok_lem rn r m day none e q h = cc
row_ok_lem rn r m day (some before) e q h = record {
  m = m;
  day = day;
  before = before;
  found = e;
  month = q;
  valid = ground arith;
  sum = ground arith;
}

Row-of :
    (rn : Bool) (r : ℕ) (o : Option (ℕ × ℕ))
    → get_elem? (md_table rn) r ≡ o
    → row_ok rn r o ≡ true
    → Row rn r
unfolding row_ok
Row-of rn r none e h = cc
Row-of rn r (some (m, day)) e h = row_ok_lem rn r m day (days_to_month rn m) e refl h

pub row : (rn : Bool) (r : ℕ) → r < year_len rn → Row rn r
row rn r h =
    Row-of rn r (get_elem? (md_table rn) r) refl
      (all_below_sound (year_len rn) _ r (rows_checked rn) h)

pair_is : ℕ → ℕ → Option (ℕ × ℕ) → Bool
pair_is a b none = false
pair_is a b (some (x, y)) = (x == a) && (y == b)

pair_is_lem : (a b : ℕ) (o : Option (ℕ × ℕ)) → pair_is a b o ≡ true → o ≡ some (a, b)
unfolding pair_is
pair_is_lem a b none h = cc
pair_is_lem a b (some (x, y)) h = ground arith

-- Conversely, each day of a month has its row.
day_ok : Bool → ℕ → ℕ → Option ℕ → Bool
day_ok rn m day none = false
day_ok rn m day (some before) =
    ltb (before + day) (year_len rn)
    && pair_is (suc m) (suc day) (get_elem? (md_table rn) (before + day))

days_checked :
    (rn : Bool)
    → all_below 12
        (λ m. all_below (month_len rn (suc m)) (λ day. day_ok rn m day (days_to_month rn (suc m))))
      ≡ true
unfolding all_below day_ok pair_is day2md day2md_rn mtod mtod_rn month_days days_to_month
days_checked true = refl
days_checked false = refl

-- The position of a day of a month in its year.
pub record Place (rn : Bool) (m day : ℕ) : Type 0 where
  pub before : ℕ
  pub place : ℕ
  pub month : days_to_month rn m ≡ some before
  pub sum : before + day ≡ place + 1
  pub within : place < year_len rn
  pub found : get_elem? (md_table rn) place ≡ some (m, day)

day_ok_lem :
    (rn : Bool) (m day : ℕ) (o : Option ℕ)
    → days_to_month rn (suc m) ≡ o
    → day_ok rn m day o ≡ true
    → Place rn (suc m) (suc day)
unfolding day_ok
day_ok_lem rn m day none e h = cc
day_ok_lem rn m day (some before) e h = record {
  before = before;
  place = before + day;
  month = e;
  sum = omega arith;
  within = ground arith;
  found = pair_is_lem (suc m) (suc day) (get_elem? (md_table rn) (before + day)) (ground arith);
}

pub place : (rn : Bool) (m day : ℕ) → IsMonthDay rn m day → Place rn m day
place rn zero day v = absurd (omega (arith, v.month_pos))
place rn (suc m) zero v = absurd (omega (arith, v.day_pos))
place rn (suc m) (suc day) v = day_ok_lem rn m day (days_to_month rn (suc m)) refl (
    all_below_sound (month_len rn (suc m)) _ day
      (all_below_sound 12 _ m (days_checked rn) (omega (arith, v.month_le)))
      (omega (arith, v.day_le)))

-- Where October stands in a common year.
october_ok : ℕ → Option ℕ → Bool
october_ok m none = true
october_ok m (some before) =
    (ltb 9 m || leb (before + month_len false m) 273)
    && ((ltb m 10 || leb 273 before)
        && ((ltb m 11 || leb 304 before) && (not (m == 10) || (before == 273))))

october_checked : all_below 13 (λ m. october_ok m (days_to_month false m)) ≡ true
unfolding all_below october_ok mtod mtod_rn month_days days_to_month
october_checked = refl

pub record October (m before : ℕ) : Type 0 where
  pub early : m ≤ 9 → before + month_len false m ≤ 273
  pub from_october : 10 ≤ m → 273 ≤ before
  pub from_november : 11 ≤ m → 304 ≤ before
  pub october_itself : m ≡ 10 → before ≡ 273

october_lem :
    (m before : ℕ) (o : Option ℕ) → o ≡ some before → october_ok m o ≡ true → October m before
unfolding october_ok
october_lem m before none e h = cc
october_lem m before (some b) e h = record {
  early = λ p. ground arith;
  from_october = λ p. ground arith;
  from_november = λ p. ground arith;
  october_itself = λ p. ground arith;
}

pub october : (m before : ℕ) → m ≤ 12 → days_to_month false m ≡ some before → October m before
october m before h e =
    october_lem m before (days_to_month false m) e
      (all_below_sound 13 _ m october_checked (omega arith))
