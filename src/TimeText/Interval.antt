-- ===== src/TimeText/Interval.antt =====
-- `str2Interval` of ksources/utl_time.cpp: a text as an interval of days and seconds, on exact numbers.
use nihao_github_io.Base.{
  ℕ, zero, suc, ◌+◌, ◌*◌, ◌≡◌, refl, true, false, ◌&&◌, ◌||◌, List, [], ◌∷◌, leb, ◌==◌,
  if◌then◌else◌, length,
}
use nihao_github_io.TimeText.{Lexed, token, word, stop, out_of_table, next_tfmt}
use nihao_github_io.TimeText.Scan.{
  Fields, fresh, Read, number, set_y, skip_blanks, read_y2, read_y3, read_y4, read_mm, read_dd,
  read_hh, read_mi, read_ss, read_token,
}
use nihao_github_io.TimeText.Parse.{Tokens, ended, no_table, no_fuel, era, format_or}

-- Two digits, or four at every second time.
unfoldable pub interval_y2 : Fields → List ℕ → Read
unfolding number set_y
interval_y2 f str =
    if f.y2_as_y4
    then set_y (record f { y2_as_y4 = false }) 0 (number 4 f.y str)
    else set_y (record f { y2_as_y4 = true }) 0 (number 2 f.y str)

unfoldable pub interval_y3 : Fields → List ℕ → Read
unfolding number set_y
interval_y3 f str = set_y f 0 (number 3 f.y str)

-- The `switch`; a word between tokens has no case.
unfoldable pub interval_token : ℕ → Fields → List ℕ → Read
unfolding interval_y2 interval_y3 read_y4 read_mm read_dd read_hh read_mi read_ss
interval_token k f str =
    if k == 23
    then interval_y2 f str
    else if k == 24
    then interval_y3 f str
    else if k == 25
    then read_y4 f str
    else if k == 12
    then read_mm f str
    else if k == 6
    then read_dd f str
    else if (k == 9) || (k == 10)
    then read_hh f str
    else if k == 11
    then read_mi f str
    else if leb 16 k && leb k 22
    then read_ss 6 f str
    else (f, str)

unfoldable pub interval_one : (List ℕ → List ℕ → Fields → Tokens) → List ℕ → Fields → Lexed → Tokens
unfolding interval_token
interval_one go str f stop = ended f str
interval_one go str f out_of_table = no_table
interval_one go str f (token k rest) = let (f', str') = interval_token k f str in go str' rest f'
interval_one go str f (word w rest) = go str rest f

unfoldable pub interval_tokens : ℕ → List ℕ → List ℕ → Fields → Tokens
unfolding next_tfmt interval_one
interval_tokens fuel [] fmt f = ended f []
interval_tokens zero (c ∷ cs) fmt f = no_fuel
interval_tokens (suc fuel) (c ∷ cs) fmt f =
    interval_one (interval_tokens fuel) (c ∷ cs) f (next_tfmt fmt)

-- The seconds and microseconds that are stored.
pub data Interval : Type 0 where
  interval : ℕ → ℕ → Interval
  past_table : Interval
  stuck : Interval

-- The loop itself never ends at an era.
unfoldable pub interval_end : Tokens → Interval
interval_end (ended f str) = interval (f.d * 24 * 3600 + f.h * 3600 + f.mi * 60 + f.s) f.us
interval_end (era f str) = stuck
interval_end no_table = past_table
interval_end no_fuel = stuck

unfoldable pub str2interval : List ℕ → List ℕ → Interval
unfolding interval_end interval_tokens skip_blanks fresh format_or
str2interval str fmt =
    let f = format_or fmt in
    interval_end (interval_tokens (length f + 1) (skip_blanks str) f (fresh false))

-- The tokens are read as `str2tm` reads them in a clock of the year 0, to the microsecond.
pub interval_token-read_token :
    (k : ℕ) (f : Fields) (str : List ℕ) → interval_token k f str ≡ read_token 0 6 k f str
unfolding interval_token read_token interval_y2 interval_y3 read_y2 read_y3
interval_token-read_token k f str = refl
