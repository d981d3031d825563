-- ===== src/TimeText/Valid.antt =====
-- The dates that `str2tm` of ksources/utl_time.cpp stores.
use nihao_github_io.Base.{
  ℕ, zero, suc, ◌+◌, ◌*◌, ◌≤◌, ◌<◌, ◌≡◌, ◌≢◌, refl, sym, ap, subst, ◌∙◌, Bool, true, false, not,
  ◌&&◌, ◌||◌, Option, none, some, List, leb, leb→le, if_rule, length, arith,
}
use nihao_github_io.Base.Int.{ℤ, pos, sub_ℕ}
use nihao_github_io.Calendar.{DateTime, is_rn, tm2date, date2tm}
use nihao_github_io.Calendar.Months.{month_len}
use nihao_github_io.Calendar.Reform.{IsAfterReform}
use nihao_github_io.Calendar.RoundTrip.{IsDate, date2tm-tm2date_gregorian, at_midnight, weekday}
use nihao_github_io.Calendar.Tables.{month_days}
use nihao_github_io.TimeText.Scan.{Fields, fresh, skip_blanks}
use nihao_github_io.TimeText.Parse.{
  Tokens, ended, era, no_table, no_fuel, Stored, Pass, done, refused, again, past_table, overflown,
  stuck, abs, leap_year, day_in_month, in_range, fit_ints, store, check, no_era, with_era,
  chk_bc_ad, finish, pass, retry_with, passes, str2tm, scale_or, format_or, read_zone, era_year,
  read_tokens,
}

-- What the end of a pass has tested of the date that it stores.
pub record IsChecked (tm : DateTime) (r : Stored) : Type 0 where
  pub fields : Fields
  pub y : ℤ
  pub have_tz : Bool
  pub t_z : ℤ
  pub zone_ok : leb (abs t_z) 1440 ≡ true
  pub range_ok : in_range y fields ≡ true
  pub day_ok : day_in_month y fields ≡ true
  pub stored : r ≡ store tm y fields have_tz t_z

and_both : (a b : Bool) → (a && b) ≡ true → (a ≡ true) × (b ≡ true)
and_both true true e = (refl, refl)
and_both true false e = cc
and_both false b e = cc

abbrev StoresChecked : DateTime → Pass → Type 0
StoresChecked tm p = (r : Stored) → p ≡ done r → IsChecked tm r

done_inj : (a b : Stored) → done a ≡ done b → a ≡ b
done_inj a b e = cc

check-IsChecked :
    (tm : DateTime) (y : ℤ) (f : Fields) (have_tz : Bool) (t_z : ℤ)
    → StoresChecked tm (check tm y f have_tz t_z)
unfolding check
check-IsChecked tm y f have_tz t_z =
    if_rule (StoresChecked tm) (not (fit_ints f)) overflown _ (λ _ r e. cc)
      (λ _.
        if_rule (StoresChecked tm) (leb (abs t_z) 1440 && (in_range y f && day_in_month y f))
          (done (store tm y f have_tz t_z)) refused
          (λ h r e.
            let (z, h') = and_both (leb (abs t_z) 1440) (in_range y f && day_in_month y f) h in
            let (a, b) = and_both (in_range y f) (day_in_month y f) h' in
            record {
              fields = f;
              y = y;
              have_tz = have_tz;
              t_z = t_z;
              zone_ok = z;
              range_ok = a;
              day_ok = b;
              stored = done_inj r (store tm y f have_tz t_z) (sym e);
            })
          (λ h r e. cc))

with_era-IsChecked :
    (tm : DateTime) (f : Fields) (have_tz : Bool) (t_z : ℤ) (o : Option ℤ)
    → StoresChecked tm (with_era tm f have_tz t_z o)
unfolding with_era no_era
with_era-IsChecked tm f have_tz t_z none =
    if_rule (StoresChecked tm) f.y2_as_y4 (again have_tz) refused (λ _ r e. cc) (λ _ r e. cc)
with_era-IsChecked tm f have_tz t_z (some y) = check-IsChecked tm y f have_tz t_z

finish-IsChecked :
    (tm : DateTime) (have_tz : Bool) (ts : Tokens) → StoresChecked tm (finish tm have_tz ts)
unfolding finish chk_bc_ad
finish-IsChecked tm have_tz (ended f str) =
    let z = read_zone (skip_blanks str) in
    with_era-IsChecked tm f (have_tz || z.have_tz) z.t_z (era_year f.y (skip_blanks z.behind))
finish-IsChecked tm have_tz (era f str) =
    with_era-IsChecked tm f have_tz (pos 0) (era_year f.y (skip_blanks str))
finish-IsChecked tm have_tz no_table = λ r e. cc
finish-IsChecked tm have_tz no_fuel = λ r e. cc

pass-IsChecked :
    (this_year scale : ℕ) (tm : DateTime) (str fmt : List ℕ) (flag have_tz : Bool)
    → StoresChecked tm (pass this_year scale tm str fmt flag have_tz)
unfolding pass
pass-IsChecked this_year scale tm str fmt flag have_tz =
    finish-IsChecked tm have_tz
      (read_tokens this_year scale (length fmt + 1) (skip_blanks str) fmt (fresh flag))

retry_with-IsChecked :
    (tm : DateTime) (go : Bool → Pass) (p : Pass)
    → ((have_tz : Bool) → StoresChecked tm (go have_tz))
    → StoresChecked tm p
    → StoresChecked tm (retry_with go p)
unfolding retry_with
retry_with-IsChecked tm go (done r) next h = h
retry_with-IsChecked tm go refused next h = h
retry_with-IsChecked tm go (again have_tz) next h = next have_tz
retry_with-IsChecked tm go past_table next h = h
retry_with-IsChecked tm go overflown next h = h
retry_with-IsChecked tm go stuck next h = h

passes-IsChecked :
    (this_year scale fuel : ℕ) (tm : DateTime) (str fmt : List ℕ) (flag have_tz : Bool)
    → StoresChecked tm (passes this_year scale fuel tm str fmt flag have_tz)
unfolding passes
passes-IsChecked this_year scale zero tm str fmt flag have_tz = λ r e. cc
passes-IsChecked this_year scale (suc fuel) tm str fmt flag have_tz =
    retry_with-IsChecked tm (passes this_year scale fuel tm str fmt true)
      (pass this_year scale tm str fmt flag have_tz)
      (passes-IsChecked this_year scale fuel tm str fmt true)
      (pass-IsChecked this_year scale tm str fmt flag have_tz)

-- The days of a month by both definitions of a leap year.
day_in_month_lem :
    (y : ℤ) (f : Fields) → day_in_month y f ≡ true → f.d ≤ month_len (leap_year (abs y)) f.m
unfolding day_in_month leap_year month_days
day_in_month_lem y f h = ground arith

leap_year-is_rn : (y : ℤ) (n : ℕ) → y ≡ sub_ℕ n 110000 → leap_year (abs y) ≡ is_rn n
unfolding leap_year abs is_rn
leap_year-is_rn y n e = rw e (ground arith)

-- What `in_range` tests of the fields.
pub record IsInRange (y : ℤ) (f : Fields) : Type 0 where
  pub year_nonzero : y ≢ pos 0
  pub day_pos : 1 ≤ f.d
  pub month_pos : 1 ≤ f.m
  pub month_le : f.m ≤ 12
  pub second : f.h * 3600 + f.mi * 60 + f.s < 86400

in_range-IsInRange : (y : ℤ) (f : Fields) → in_range y f ≡ true → IsInRange y f
unfolding in_range abs
in_range-IsInRange y f h = record {
  year_nonzero = ground arith;
  day_pos = ground arith;
  month_pos = ground arith;
  month_le = ground arith;
  second = ground arith;
}

-- What `str2tm` promises of what it stores: `n` is the shifted year.
pub record IsAccepted (tm : DateTime) (r : Stored) (n : ℕ) : Type 0 where
  pub date : IsDate is_rn r.tm n
  pub year_nonzero : r.tm.year ≢ pos 0
  pub second : r.tm.s < 86400
  pub wday_kept : r.tm.wday ≡ tm.wday
  pub zone_small : abs r.tz ≤ 1440
  pub no_zone : r.btz ≡ false → r.tz ≡ pos 0

store-no_zone :
    (tm : DateTime) (y : ℤ) (f : Fields) (have_tz : Bool) (t_z : ℤ)
    → have_tz ≡ false
    → (store tm y f have_tz t_z).tz ≡ pos 0
unfolding store
store-no_zone tm y f have_tz t_z e = rw e

store-zone_small :
    (tm : DateTime) (y : ℤ) (f : Fields) (have_tz : Bool) (t_z : ℤ)
    → leb (abs t_z) 1440 ≡ true
    → abs (store tm y f have_tz t_z).tz ≤ 1440
unfolding store abs
store-zone_small tm y f true t_z h = leb→le (abs t_z) 1440 h
store-zone_small tm y f false t_z h = omega arith

year_stored :
    (tm : DateTime) (y : ℤ) (f : Fields) (have_tz : Bool) (t_z : ℤ) (r : Stored) (n : ℕ)
    → r ≡ store tm y f have_tz t_z
    → r.tm.year ≡ sub_ℕ n 110000
    → y ≡ sub_ℕ n 110000
unfolding store
year_stored tm y f have_tz t_z r n e year = sym (ap (λ r. r.tm.year) e) ∙ year

store-IsAccepted :
    (tm : DateTime) (y : ℤ) (f : Fields) (have_tz : Bool) (t_z : ℤ) (n : ℕ)
    → leb (abs t_z) 1440 ≡ true
    → IsInRange y f
    → day_in_month y f ≡ true
    → y ≡ sub_ℕ n 110000
    → 3 ≤ n
    → IsAccepted tm (store tm y f have_tz t_z) n
unfolding store
store-IsAccepted tm y f have_tz t_z n z v h e late = record {
  date = record {
    year_is = e;
    year_min = late;
    day_valid = record {
      month_pos = v.month_pos;
      month_le = v.month_le;
      day_pos = v.day_pos;
      day_le = subst (λ b. f.d ≤ month_len b f.m) (leap_year-is_rn y n e) (day_in_month_lem y f h);
    };
  };
  year_nonzero = v.year_nonzero;
  second = v.second;
  wday_kept = refl;
  zone_small = store-zone_small tm y f have_tz t_z z;
  no_zone = store-no_zone tm y f have_tz t_z;
}

-- A date that `str2tm` stores after a pass in which no number leaves the source's `int`, from the
-- year -109997 on, is one of the Gregorian calendar: its month is 1 to 12 and its day is at most
-- the days of that month in that year. The year is not 0, the seconds are those of one day, the day
-- of the week is as before, and the zone is at most 1440 minutes to either side, and 0 if the text
-- has none.
pub str2tm-IsAccepted :
    (this_year fuel : ℕ) (str fmt : List ℕ) (scale : ℤ) (tm : DateTime) (r : Stored) (n : ℕ)
    → str2tm this_year fuel str fmt scale tm ≡ done r
    → r.tm.year ≡ sub_ℕ n 110000
    → 3 ≤ n
    → IsAccepted tm r n
unfolding str2tm
str2tm-IsAccepted this_year fuel str fmt scale tm r n e year late =
    let c =
      passes-IsChecked this_year (scale_or scale) fuel tm str (format_or fmt) false false r e in
    subst (λ r. IsAccepted tm r n) (sym c.stored)
      (store-IsAccepted tm c.y c.fields c.have_tz c.t_z n c.zone_ok
        (in_range-IsInRange c.y c.fields c.range_ok) c.day_ok
        (year_stored tm c.y c.fields c.have_tz c.t_z r n c.stored year) late)

-- A text that `str2tm` reads, with no number that leaves the source's `int`, as a date from
-- 1582-10-15 on to the end of the year 5769000 has a day number, and `date2tm` gives that date
-- again, at midnight and with its day of the week.
pub date2tm-str2tm :
    (this_year fuel : ℕ) (str fmt : List ℕ) (scale : ℤ) (tm : DateTime) (r : Stored) (y : ℕ)
    → str2tm this_year fuel str fmt scale tm ≡ done r
    → r.tm.year ≡ sub_ℕ y 110000
    → IsAfterReform y r.tm.month r.tm.mday
    → y ≤ 5879000
    → (n : ℤ) × (tm2date r.tm ≡ some n) × (date2tm n ≡ some (at_midnight r.tm (weekday n)))
date2tm-str2tm this_year fuel str fmt scale tm r y e year after max =
    let v = str2tm-IsAccepted this_year fuel str fmt scale tm r y e year (omega arith) in
    date2tm-tm2date_gregorian r.tm y v.date after max
