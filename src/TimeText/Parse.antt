-- ===== src/TimeText/Parse.antt =====
-- `str2tm` of ksources/utl_time.cpp. `this_year` is the year that the clock shows. A pass from the
-- label `retry` on is a function, and the jumps back to it are counted by fuel.
use nihao_github_io.Base.{
  ℕ, zero, suc, ◌+◌, ◌*◌, ◌%◌, ◌^◌, Bool, true, false, not, ◌&&◌, ◌||◌, Option, none, some, List,
  [], ◌∷◌, ltb, leb, ◌==◌, if◌then◌else◌, get_or, length,
}
use nihao_github_io.Base.Int.{ℤ, pos, negsuc, sub_ℕ}
use nihao_github_io.Calendar.{DateTime}
use nihao_github_io.Calendar.Tables.{month_days}
use nihao_github_io.TimeText.{Lexed, token, word, stop, out_of_table, next_tfmt}
use nihao_github_io.TimeText.Scan.{
  Fields, fresh, read_digits, skip_blanks, skip_to_digit, read_token, same_word, at_era,
}

-- How the loop over the tokens ends: at the end, at the name of an era, or out of a table.
pub data Tokens : Type 0 where
  ended : Fields → List ℕ → Tokens
  era : Fields → List ℕ → Tokens
  no_table : Tokens
  no_fuel : Tokens

-- One round of the loop; `go` is the rest of it, from a text, a format and the fields.
unfoldable pub read_one :
    ℕ → ℕ → (List ℕ → List ℕ → Fields → Tokens) → List ℕ → Fields → Lexed → Tokens
unfolding skip_blanks skip_to_digit read_token at_era
read_one this_year scale go str f stop = ended f str
read_one this_year scale go str f out_of_table = no_table
read_one this_year scale go str f (token k rest) =
    let (f', str') = read_token this_year scale k f str in go str' rest f'
read_one this_year scale go str f (word w rest) =
    let str' = skip_blanks str in
    let on = go (skip_to_digit str') rest f in if at_era str' then era f str' else on

unfoldable pub read_tokens : ℕ → ℕ → ℕ → List ℕ → List ℕ → Fields → Tokens
unfolding next_tfmt read_one
read_tokens this_year scale fuel [] fmt f = ended f []
read_tokens this_year scale zero (c ∷ cs) fmt f = no_fuel
read_tokens this_year scale (suc fuel) (c ∷ cs) fmt f =
    read_one this_year scale (read_tokens this_year scale fuel) (c ∷ cs) f (next_tfmt fmt)

-- `t_z` in minutes, if a zone stands there, and the text behind it.
pub record Zone : Type 0 where
  pub have_tz : Bool
  pub t_z : ℤ
  pub behind : List ℕ

unfoldable pub minus : Bool → ℕ → ℤ
minus false n = pos n
minus true zero = pos 0
minus true (suc n) = negsuc n

unfoldable pub read_minutes : ℕ → List ℕ → ℕ × List ℕ
unfolding read_digits
read_minutes t [] = (t, [])
read_minutes t (c ∷ cs) =
    let (n, rest) = read_digits 2 0 cs in if c == b':' then (t + n, rest) else (t, c ∷ cs)

unfoldable pub signed_zone : Bool → ℕ × List ℕ → Zone
unfolding minus read_minutes skip_blanks
signed_zone neg (hours, str) =
    let (t, rest) = read_minutes (hours * 60) (skip_blanks str) in
    record { have_tz = true; t_z = minus neg t; behind = rest }

unfoldable pub read_zone : List ℕ → Zone
unfolding signed_zone read_digits
read_zone [] = record { have_tz = false; t_z = pos 0; behind = [] }
read_zone (c ∷ cs) =
    if c == b'+'
    then signed_zone false (read_digits 2 0 cs)
    else if c == b'-'
    then signed_zone true (read_digits 2 0 cs)
    else record { have_tz = false; t_z = pos 0; behind = c ∷ cs }

-- The year behind the name of an era, or a text that is none.
unfoldable pub era_year : ℕ → List ℕ → Option ℤ
unfolding same_word
era_year y [] = some (pos y)
era_year y (c ∷ cs) =
    if same_word (c ∷ cs) (b'B' ∷ b'C' ∷ [])
    then some (sub_ℕ 1 y)
    else if same_word (c ∷ cs) (b'A' ∷ b'D' ∷ [])
    then some (pos y)
    else none

-- `((y & 3) == 0 && y % 100 != 0) || y % 400 == 0`, which does not depend on the sign of `y`.
unfoldable pub abs : ℤ → ℕ
abs (pos n) = n
abs (negsuc n) = suc n

unfoldable pub leap_year : ℕ → Bool
leap_year y = ((y % 4 == 0) && not (y % 100 == 0)) || (y % 400 == 0)

unfoldable pub day_in_month : ℤ → Fields → Bool
unfolding abs leap_year
day_in_month y f =
    if f.m == 2
    then (if leap_year (abs y) then leb f.d 29 else leb f.d 28)
    else leb f.d (get_or month_days f.m 0)

unfoldable pub in_range : ℤ → Fields → Bool
unfolding abs
in_range y f =
    not (abs y == 0)
    && (leb 1 f.d && (leb 1 f.m && (leb f.m 12 && (leb f.h 23 && (leb f.mi 59 && leb f.s 59)))))

-- What is stored: the date and time, and the zone if there is one.
pub record Stored : Type 0 where
  pub tm : DateTime
  pub btz : Bool
  pub tz : ℤ

unfoldable pub store : DateTime → ℤ → Fields → Bool → ℤ → Stored
store tm y f have_tz t_z = record {
  tm = record tm { year = y; month = f.m; mday = f.d; s = f.h * 3600 + f.mi * 60 + f.s; us = f.us };
  btz = have_tz;
  tz = if have_tz then t_z else pos 0;
}

-- The end of a pass: true, false, or back to `retry`, with `have_tz` as it stands. `overflown` is
-- the end where a number has left the source's `int`, of which C says nothing.
pub data Pass : Type 0 where
  done : Stored → Pass
  refused : Pass
  again : Bool → Pass
  past_table : Pass
  overflown : Pass
  stuck : Pass

-- The numbers of a pass are in the range of `int`. They only grow from token to token, so that at
-- the end of a pass they show every overflow in it; a month and a day have two digits.
unfoldable pub fit_ints : Fields → Bool
fit_ints f =
    ltb f.y (2 ^ 31)
    && (ltb f.h (2 ^ 31) && (ltb f.mi (2 ^ 31) && (ltb f.s (2 ^ 31) && ltb f.us (2 ^ 31))))

unfoldable pub check : DateTime → ℤ → Fields → Bool → ℤ → Pass
unfolding in_range day_in_month store abs fit_ints
check tm y f have_tz t_z =
    if not (fit_ints f)
    then overflown
    else if leb (abs t_z) 1440 && (in_range y f && day_in_month y f)
    then done (store tm y f have_tz t_z)
    else refused

unfoldable pub no_era : Fields → Bool → Pass
no_era f have_tz = if f.y2_as_y4 then again have_tz else refused

unfoldable pub with_era : DateTime → Fields → Bool → ℤ → Option ℤ → Pass
unfolding check no_era
with_era tm f have_tz t_z none = no_era f have_tz
with_era tm f have_tz t_z (some y) = check tm y f have_tz t_z

-- From the label `chk_bc_ad` on.
unfoldable pub chk_bc_ad : DateTime → Fields → Bool → ℤ → List ℕ → Pass
unfolding with_era era_year skip_blanks
chk_bc_ad tm f have_tz t_z str = with_era tm f have_tz t_z (era_year f.y (skip_blanks str))

unfoldable pub finish : DateTime → Bool → Tokens → Pass
unfolding chk_bc_ad read_zone skip_blanks
finish tm have_tz (ended f str) =
    let z = read_zone (skip_blanks str) in chk_bc_ad tm f (have_tz || z.have_tz) z.t_z z.behind
finish tm have_tz (era f str) = chk_bc_ad tm f have_tz (pos 0) str
finish tm have_tz no_table = past_table
finish tm have_tz no_fuel = stuck

unfoldable pub pass : ℕ → ℕ → DateTime → List ℕ → List ℕ → Bool → Bool → Pass
unfolding finish read_tokens fresh skip_blanks
pass this_year scale tm str fmt flag have_tz =
    finish tm have_tz
      (read_tokens this_year scale (length fmt + 1) (skip_blanks str) fmt (fresh flag))

-- `goto retry`.
unfoldable pub retry_with : (Bool → Pass) → Pass → Pass
retry_with retry (done r) = done r
retry_with retry refused = refused
retry_with retry (again have_tz) = retry have_tz
retry_with retry past_table = past_table
retry_with retry overflown = overflown
retry_with retry stuck = stuck

unfoldable pub passes : ℕ → ℕ → ℕ → DateTime → List ℕ → List ℕ → Bool → Bool → Pass
unfolding pass retry_with
passes this_year scale zero tm str fmt flag have_tz = stuck
passes this_year scale (suc fuel) tm str fmt flag have_tz =
    retry_with (passes this_year scale fuel tm str fmt true)
      (pass this_year scale tm str fmt flag have_tz)

-- yyyy-mm-dd h24-mi-ss.ssssss
unfoldable pub def_time_format : List ℕ
def_time_format =
    b'y' ∷ b'y' ∷ b'y' ∷ b'y' ∷ b'-' ∷ b'm' ∷ b'm' ∷ b'-' ∷ b'd' ∷ b'd' ∷ b' ' ∷ b'h' ∷ b'2' ∷ b'4'
    ∷ b'-' ∷ b'm' ∷ b'i' ∷ b'-' ∷ b's' ∷ b's' ∷ b'.' ∷ b's' ∷ b's' ∷ b's' ∷ b's' ∷ b's' ∷ b's' ∷ []

unfoldable pub format_or : List ℕ → List ℕ
unfolding def_time_format
format_or [] = def_time_format
format_or (c ∷ cs) = c ∷ cs

-- A scale below 0 is taken for 6, like one above it.
unfoldable pub scale_or : ℤ → ℕ
scale_or (pos n) = if ltb 6 n then 6 else n
scale_or (negsuc n) = 6

unfoldable pub str2tm : ℕ → ℕ → List ℕ → List ℕ → ℤ → DateTime → Pass
unfolding passes format_or scale_or
str2tm this_year fuel str fmt scale tm =
    passes this_year (scale_or scale) fuel tm str (format_or fmt) false false
