-- ===== src/TimeText/RoundTrip.antt =====
-- The round trip from a date to its text and back, in ksources/utl_time.cpp.
use nihao_github_io.Base.{
  ℕ, zero, suc, ◌+◌, ◌*◌, ◌/◌, ◌%◌, ◌≤◌, ◌<◌, ◌≡◌, refl, ap, subst, ◌∙◌, Bool, true, false, some,
  List, [], length, arith,
}
use nihao_github_io.Base.Int.{ℤ, pos}
use nihao_github_io.Calendar.{DateTime}
use nihao_github_io.Calendar.Months.{IsMonthDay}
use nihao_github_io.Calendar.Tables.{month_days}
use nihao_github_io.TimeText.Scan.{fresh, skip_blanks}
use nihao_github_io.TimeText.Parse.{
  ended, done, Stored, abs, leap_year, day_in_month, in_range, fit_ints, store, check, with_era,
  era_year, chk_bc_ad, read_zone, finish, pass, retry_with, passes, format_or, scale_or, str2tm,
}
use nihao_github_io.TimeText.Print.{printed, tm2str}
use nihao_github_io.TimeText.Layout.{Item, items, is_layout, no_word, seen_in}
use nihao_github_io.TimeText.Fields.{Fits, fields_at}
use nihao_github_io.TimeText.Between.{skip_blanks-at_number}
use nihao_github_io.TimeText.Written.{text, write_tokens-text}
use nihao_github_io.TimeText.ReadBack.{all_fields, text-at_number, read_tokens-text}

-- A date of the years 1 to 9999 with a time of the day.
pub record IsTime (dt : DateTime) (y : ℕ) : Type 0 where
  pub year_is : dt.year ≡ pos y
  pub year_pos : 1 ≤ y
  pub year_lt : y < 10000
  pub day_valid : IsMonthDay (leap_year y) dt.month dt.mday
  pub s_lt : dt.s < 86400

-- A format that names the whole date and time: items of the lexer, from a token on, in which
-- each of yyyy, mm, dd, hh24, mi and ss stands once.
pub record IsWhole (fmt : List ℕ) : Type 0 where
  pub its : List Item
  pub lexed : items (length fmt + 1) fmt ≡ some its
  pub layout : is_layout [] its ≡ true
  pub number_first : no_word its ≡ true

mday_lt : (leap : Bool) (m d : ℕ) → IsMonthDay leap m d → d < 100
unfolding month_days
mday_lt leap m d v = ground (arith, v.day_le, v.month_le)

pub fits : (dt : DateTime) (y : ℕ) → IsTime dt y → Fits dt y
fits dt y v = record {
  year_is = v.year_is;
  year_pos = v.year_pos;
  year_lt = v.year_lt;
  month_lt = omega (arith, v.day_valid.month_le);
  mday_lt = mday_lt (leap_year y) dt.month dt.mday v.day_valid;
  s_lt = v.s_lt;
}

pub layout_some : is_layout [] [] ≡ true → ⊥
unfolding is_layout seen_in
layout_some h = cc

pub tm2str-text :
    (float_text : ℕ → ℕ → ℕ → List ℕ) (dt : DateTime) (y : ℕ) (old fmt : List ℕ)
    → IsTime dt y
    → (w : IsWhole (format_or fmt)) → tm2str float_text dt old fmt ≡ printed (text dt y w.its)
unfolding tm2str
tm2str-text float_text dt y old fmt v w =
    write_tokens-text float_text dt y (length (format_or fmt) + 1) (fits dt y v) (format_or fmt)
      w.its [] [] old w.lexed w.layout
      (λ e. absurd (layout_some (subst (λ its. is_layout [] its ≡ true) e w.layout)))

-- The tests at the end of a pass hold.
in_range_lem : (dt : DateTime) (y : ℕ) → IsTime dt y → in_range (pos y) (all_fields dt y) ≡ true
unfolding in_range abs
in_range_lem dt y v =
    ground
      (arith, v.day_valid.month_pos, v.day_valid.month_le, v.day_valid.day_pos, v.s_lt, v.year_pos)

day_in_month_lem :
    (dt : DateTime) (y : ℕ) → IsTime dt y → day_in_month (pos y) (all_fields dt y) ≡ true
unfolding day_in_month abs leap_year month_days
day_in_month_lem dt y v = ground (arith, v.day_valid.day_le)

fit_ints_lem : (dt : DateTime) (y : ℕ) → IsTime dt y → fit_ints (all_fields dt y) ≡ true
unfolding fit_ints
fit_ints_lem dt y v = ground (arith, v.s_lt, v.year_lt)

-- What `str2tm` stores: the date and time, without the fraction, the day of the week as before,
-- and no zone.
abbrev pub stored_time : DateTime → DateTime → Stored
stored_time tm dt = record {
  tm = record tm { year = dt.year; month = dt.month; mday = dt.mday; s = dt.s; us = 0 };
  btz = false;
  tz = pos 0;
}

same_seconds : (n : ℕ) → n / 60 / 60 * 3600 + n / 60 % 60 * 60 + n % 60 ≡ n
same_seconds n = omega arith

finish-all_fields :
    (tm dt : DateTime) (y : ℕ)
    → IsTime dt y
    → finish tm false (ended (all_fields dt y) []) ≡ done (stored_time tm dt)
unfolding finish chk_bc_ad with_era check store skip_blanks read_zone era_year abs
finish-all_fields tm dt y v =
    rw
      (
        fit_ints_lem dt y v,
        in_range_lem dt y v,
        day_in_month_lem dt y v,
        same_seconds dt.s,
        v.year_is,
      )
      refl

pass-text :
    (this_year scale : ℕ) (tm dt : DateTime) (y : ℕ) (fmt : List ℕ)
    → IsTime dt y
    → (w : IsWhole fmt)
    → pass this_year scale tm (text dt y w.its) fmt false false ≡ done (stored_time tm dt)
unfolding pass fresh fields_at seen_in
pass-text this_year scale tm dt y fmt v w =
    rw
      (skip_blanks-at_number (text dt y w.its)
        (text-at_number dt y [] w.its (fits dt y v) w.layout w.number_first))
      (ap (finish tm false) (
          read_tokens-text this_year scale dt y (length fmt + 1) (fits dt y v) fmt w.its [] w.lexed
            w.layout)
        ∙ finish-all_fields tm dt y v)

-- In a format that names the whole date and time, `str2tm` reads what `tm2str` writes for a date
-- of the years 1 to 9999 and stores that date and time again, without the fraction of the second.
pub str2tm-tm2str :
    (float_text : ℕ → ℕ → ℕ → List ℕ) (this_year fuel : ℕ) (scale : ℤ) (tm dt : DateTime) (y : ℕ)
    (old fmt : List ℕ)
    → IsTime dt y
    → IsWhole (format_or fmt)
    → 1 ≤ fuel
    → (t : List ℕ) × (tm2str float_text dt old fmt ≡ printed t)
      × (str2tm this_year fuel t fmt scale tm ≡ done (stored_time tm dt))
unfolding str2tm passes retry_with
str2tm-tm2str float_text this_year zero scale tm dt y old fmt v w h = absurd (omega arith)
str2tm-tm2str float_text this_year (suc fuel) scale tm dt y old fmt v w h = (
  text dt y w.its,
  tm2str-text float_text dt y old fmt v w,
  ap (retry_with (passes this_year (scale_or scale) fuel tm (text dt y w.its) (format_or fmt) true))
      (pass-text this_year (scale_or scale) tm dt y (format_or fmt) v w),
)
