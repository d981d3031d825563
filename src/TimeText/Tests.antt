-- ===== src/TimeText/Tests.antt =====
-- Formats and texts.
use nihao_github_io.Base.{
  ℕ, ◌+◌, ◌*◌, ◌≤◌, ◌≡◌, ◌≢◌, refl, false, some, List, [], ◌∷◌, length, inl, arith,
}
use nihao_github_io.Base.Int.{ℤ, pos}
use nihao_github_io.Calendar.{DateTime}
use nihao_github_io.Sql.Ctype.{is_alnum}
use nihao_github_io.TimeText.{stop, next_tfmt, jmp_to, newer, token_at}
use nihao_github_io.TimeText.Language.{IsLexed, next_tfmt-IsLexed}
use nihao_github_io.TimeText.Valid.{IsAccepted, str2tm-IsAccepted, date2tm-str2tm}
use nihao_github_io.TimeText.Passes.{str2tm_two_passes}
use nihao_github_io.TimeText.OneYear.{year2s, str2tm_returns}
use nihao_github_io.Calendar.{tm2date, date2tm}
use nihao_github_io.Calendar.RoundTrip.{at_midnight, weekday}
use nihao_github_io.TimeText.Parse.{format_or, done, stuck, Stored, str2tm}
use nihao_github_io.Calendar.Tables.{month_days}
use nihao_github_io.TimeText.Print.{printed, tm2str}
use nihao_github_io.TimeText.Layout.{items, is_layout}
use nihao_github_io.TimeText.Interval.{interval, str2interval}
use nihao_github_io.TimeText.IntervalText.{str2interval-tm2str}
use nihao_github_io.TimeText.RoundTrip.{IsTime, IsWhole, stored_time, str2tm-tm2str}
use nihao_github_io.TimeText.Parse.{leap_year}

-- yyyy-mm-dd hh24:mi:ss
abbrev full_format : List ℕ
full_format =
    b'y' ∷ b'y' ∷ b'y' ∷ b'y' ∷ b'-' ∷ b'm' ∷ b'm' ∷ b'-' ∷ b'd' ∷ b'd' ∷ b' ' ∷ b'h' ∷ b'h' ∷ b'2'
    ∷ b'4' ∷ b':' ∷ b'm' ∷ b'i' ∷ b':' ∷ b's' ∷ b's' ∷ []

-- 2024-02-29 10:20:30
abbrev leap_text : List ℕ
leap_text =
    b'2' ∷ b'0' ∷ b'2' ∷ b'4' ∷ b'-' ∷ b'0' ∷ b'2' ∷ b'-' ∷ b'2' ∷ b'9' ∷ b' ' ∷ b'1' ∷ b'0' ∷ b':'
    ∷ b'2' ∷ b'0' ∷ b':' ∷ b'3' ∷ b'0' ∷ []

abbrev blank : DateTime
blank = record { year = pos 1; month = 1; mday = 1; wday = 0; s = 0; us = 0 }

abbrev leap_stored : Stored
leap_stored = record {
  tm = record { year = pos 2024; month = 2; mday = 29; wday = 0; s = 37230; us = 0 };
  btz = false;
  tz = pos 0;
}

leap_run : str2tm 2024 2 leap_text full_format (pos 6) blank ≡ done leap_stored
unfolding str2tm is_alnum jmp_to newer token_at
leap_run = refl

-- The default format has `h24`, which is no word: the lexer stops there.
default_run : next_tfmt (b'h' ∷ b'2' ∷ b'4' ∷ []) ≡ stop
unfolding next_tfmt is_alnum jmp_to newer token_at
default_run = refl

-- yy yy yy
abbrev three_years : List ℕ
three_years = b'y' ∷ b'y' ∷ b' ' ∷ b'y' ∷ b'y' ∷ b' ' ∷ b'y' ∷ b'y' ∷ []

-- 1234 56 BC 78
abbrev odd_text : List ℕ
odd_text =
    b'1' ∷ b'2' ∷ b'3' ∷ b'4' ∷ b' ' ∷ b'5' ∷ b'6' ∷ b' ' ∷ b'B' ∷ b'C' ∷ b' ' ∷ b'7' ∷ b'8' ∷ []

odd_run : str2tm 2024 7 odd_text three_years (pos 6) blank ≡ stuck
unfolding str2tm is_alnum jmp_to newer token_at
odd_run = refl

-- HH2:
abbrev short_format : List ℕ
short_format = b'H' ∷ b'H' ∷ b'2' ∷ b':' ∷ []

next_tfmt-IsLexed_example : IsLexed short_format (next_tfmt short_format)
next_tfmt-IsLexed_example =
    next_tfmt-IsLexed short_format (omega arith, (omega arith, (omega arith, (omega arith, tt))))

str2tm-IsAccepted_example : IsAccepted blank leap_stored 112024
str2tm-IsAccepted_example =
    str2tm-IsAccepted 2024 2 leap_text full_format (pos 6) blank leap_stored 112024 leap_run refl
      (omega arith)

date2tm-str2tm_example :
    (n : ℤ) × (tm2date leap_stored.tm ≡ some n)
    × (date2tm n ≡ some (at_midnight leap_stored.tm (weekday n)))
date2tm-str2tm_example =
    date2tm-str2tm 2024 2 leap_text full_format (pos 6) blank leap_stored 112024 leap_run refl
      (inl (omega arith)) (omega arith)

str2tm_two_passes_example :
    str2tm 2024 7 odd_text three_years (pos 6) blank
    ≡ str2tm 2024 2 odd_text three_years (pos 6) blank
str2tm_two_passes_example =
    str2tm_two_passes 2024 7 odd_text three_years (pos 6) blank (omega arith)

-- dd-mm-yy
abbrev short_year : List ℕ
short_year = b'd' ∷ b'd' ∷ b'-' ∷ b'm' ∷ b'm' ∷ b'-' ∷ b'y' ∷ b'y' ∷ []

-- 01-02-2003
abbrev long_year : List ℕ
long_year = b'0' ∷ b'1' ∷ b'-' ∷ b'0' ∷ b'2' ∷ b'-' ∷ b'2' ∷ b'0' ∷ b'0' ∷ b'3' ∷ []

one_year : year2s (length (format_or short_year) + 1) (format_or short_year) ≤ 1
unfolding year2s format_or next_tfmt is_alnum jmp_to newer token_at
one_year = omega arith

-- The second pass reads the year with all its digits.
long_run :
    (r : Stored) × (str2tm 2024 2 long_year short_year (pos 6) blank ≡ done r)
    × (r.tm.year ≡ pos 2003)
unfolding str2tm is_alnum jmp_to newer token_at
long_run = (_, refl, refl)

str2tm_returns_example : str2tm 2024 2 long_year short_year (pos 6) blank ≢ stuck
str2tm_returns_example =
    str2tm_returns 2024 2 long_year short_year (pos 6) blank (omega arith) one_year

abbrev leap_time : DateTime
leap_time = record { year = pos 2024; month = 2; mday = 29; wday = 4; s = 37230; us = 500000 }

leap_time-IsTime : IsTime leap_time 2024
unfolding leap_year month_days
leap_time-IsTime = record {
  year_is = refl;
  year_pos = omega arith;
  year_lt = omega arith;
  day_valid = omega arith;
  s_lt = omega arith;
}

full_format-IsWhole : IsWhole (format_or full_format)
unfolding items is_layout format_or next_tfmt is_alnum jmp_to newer token_at
full_format-IsWhole = record { its = _; lexed = refl; layout = refl; number_first = refl }

-- Doubles are not written in this format.
abbrev no_float : ℕ → ℕ → ℕ → List ℕ
no_float n s us = []

full_run : tm2str no_float leap_time [] full_format ≡ printed leap_text
unfolding tm2str is_alnum jmp_to newer token_at
full_run = refl

str2tm-tm2str_example :
    (t : List ℕ) × (tm2str no_float leap_time [] full_format ≡ printed t)
    × (str2tm 2024 1 t full_format (pos 6) blank ≡ done (stored_time blank leap_time))
str2tm-tm2str_example =
    str2tm-tm2str no_float 2024 1 (pos 6) blank leap_time 2024 [] full_format leap_time-IsTime
      full_format-IsWhole (omega arith)

str2interval-tm2str_example :
    (t : List ℕ) × (tm2str no_float leap_time [] full_format ≡ printed t)
    × (str2interval t full_format ≡ interval (29 * 86400 + 37230) 0)
str2interval-tm2str_example =
    str2interval-tm2str no_float leap_time 2024 [] full_format leap_time-IsTime full_format-IsWhole

-- hh24:mi
abbrev clock_format : List ℕ
clock_format = b'h' ∷ b'h' ∷ b'2' ∷ b'4' ∷ b':' ∷ b'm' ∷ b'i' ∷ []

-- Without days in the format, an interval of an hour is a day and an hour.
hour_run : str2interval (b'0' ∷ b'1' ∷ b':' ∷ b'0' ∷ b'0' ∷ []) clock_format ≡ interval 90000 0
unfolding str2interval is_alnum jmp_to newer token_at
hour_run = refl
