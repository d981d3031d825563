-- ===== src/TimeText/Print.antt =====
-- `tm2str` of ksources/utl_time.cpp. `float_text n s us` is what `sprintf` writes for the double
-- `s + us / 1000000.0` with `n` digits behind the point.
use nihao_github_io.Base.{
  ℕ, zero, suc, ◌+◌, ◌-◌, ◌/◌, ◌%◌, Bool, true, false, ◌&&◌, ◌||◌, Option, none, some, List, [],
  ◌∷◌, ◌++◌, ltb, leb, ◌==◌, if◌then◌else◌, length,
}
use nihao_github_io.Base.Int.{ℤ, pos, negsuc}
use nihao_github_io.Calendar.{DateTime}
use nihao_github_io.TimeText.{Lexed, token, word, stop, out_of_table, next_tfmt}
use nihao_github_io.TimeText.Parse.{format_or}

-- The digits of a number in front of a text.
unfoldable pub higher_digits : ℕ → ℕ → List ℕ → List ℕ
higher_digits zero n text = text
higher_digits (suc fuel) n text =
    let more = higher_digits fuel (n / 10) ((b'0' + n % 10) ∷ text) in if n == 0 then text else more

-- `%0wd`: at least `w` digits.
unfoldable pub put_digits : ℕ → ℕ → List ℕ → List ℕ
unfolding higher_digits
put_digits zero n text = higher_digits n n text
put_digits (suc w) n text = put_digits w (n / 10) ((b'0' + n % 10) ∷ text)

unfoldable pub padded : ℕ → ℕ → List ℕ
unfolding put_digits
padded w n = put_digits w n []

-- `dt.year`, or `1 - dt.year` before the year 1, with `is_bc`.
unfoldable pub year_text : ℤ → ℕ × Bool
year_text (pos zero) = (1, true)
year_text (pos (suc n)) = (suc n, false)
year_text (negsuc n) = (n + 2, true)

unfoldable pub year4 : ℕ × Bool → List ℕ × Bool
unfolding padded
year4 (y, bc) = (padded 4 y, bc)

unfoldable pub year3 : ℕ × Bool → List ℕ × Bool
unfolding padded
year3 (y, bc) = (padded 3 (y % 1000), bc)

-- Two digits, or three before the year 1.
unfoldable pub year2 : ℕ × Bool → List ℕ × Bool
unfolding padded
year2 (y, bc) = (padded (if bc then 3 else 2) (y % 100), bc)

unfoldable pub half_day : ℕ → List ℕ
half_day h = if ltb 12 h then b'P' ∷ b'M' ∷ [] else b'A' ∷ b'M' ∷ []

-- The `switch` over the tokens, without the year: the string at `p_str`, where `at` is the one that
-- `strcat` finds there.
unfoldable pub write_time : (ℕ → ℕ → ℕ → List ℕ) → DateTime → ℕ → List ℕ → Option (List ℕ)
unfolding padded half_day
write_time float_text dt k at =
    let m = dt.s / 60 in
    let h = m / 60 in
    let s = dt.s % 60 in
    if k == 12
    then some (padded 2 dt.month)
    else if k == 5
    then some (padded 1 (dt.wday + 1))
    else if k == 6
    then some (padded 2 dt.mday)
    else if k == 9
    then some (padded 2 (if ltb 12 h then h - 12 else h))
    else if k == 10
    then some (padded 2 h)
    else if (k == 2) || (k == 15)
    then some (at ++ half_day h)
    else if k == 11
    then some (padded 2 (m % 60))
    else if k == 16
    then some (padded 2 s)
    else if leb 17 k && leb k 22
    then some (float_text (k - 16) s dt.us)
    else none

unfoldable pub time_piece : Bool → Option (List ℕ) → Option (List ℕ × Bool)
time_piece bc none = none
time_piece bc (some text) = some (text, bc)

unfoldable pub era_piece : Bool → List ℕ × Bool → Option (List ℕ × Bool)
era_piece bc (text, is_bc) = some (text, bc || is_bc)

-- The string at `p_str` and `is_bc` behind a token, or a token without a case.
unfoldable pub write_token :
    (ℕ → ℕ → ℕ → List ℕ) → DateTime → ℕ → List ℕ → Bool → Option (List ℕ × Bool)
unfolding write_time time_piece era_piece year_text year4 year3 year2
write_token float_text dt k at bc =
    if k == 25
    then era_piece bc (year4 (year_text dt.year))
    else if k == 24
    then era_piece bc (year3 (year_text dt.year))
    else if k == 23
    then era_piece bc (year2 (year_text dt.year))
    else time_piece bc (write_time float_text dt k at)

-- What is in `buff` at the end: the result is KCI_SUCCESS or KCI_ERROR.
pub data Printed : Type 0 where
  printed : List ℕ → Printed
  failed : List ℕ → Printed
  left_table : Printed
  out_of_fuel : Printed

unfoldable pub write_end : List ℕ → List ℕ → Bool → Printed
write_end buff at bc = printed (buff ++ (if bc then b' ' ∷ b'B' ∷ b'C' ∷ [] else at))

-- Behind a token `p_str` moves to the end of the string; `go` is the rest of the loop.
unfoldable pub write_more :
    (List ℕ → List ℕ → List ℕ → Bool → Printed)
    → List ℕ
    → List ℕ
    → List ℕ
    → Option (List ℕ × Bool)
    → Printed
write_more go rest buff at none = failed (buff ++ at)
write_more go rest buff at (some (text, bc)) = go rest (buff ++ text) [] bc

unfoldable pub write_one :
    (ℕ → ℕ → ℕ → List ℕ)
    → DateTime
    → (List ℕ → List ℕ → List ℕ → Bool → Printed)
    → List ℕ
    → List ℕ
    → Bool
    → Lexed
    → Printed
unfolding write_end write_more write_token
write_one float_text dt go buff at bc stop = write_end buff at bc
write_one float_text dt go buff at bc out_of_table = left_table
write_one float_text dt go buff at bc (token k rest) =
    write_more go rest buff at (write_token float_text dt k at bc)
write_one float_text dt go buff at bc (word w rest) = go rest (buff ++ w) [] bc

unfoldable pub write_tokens :
    (ℕ → ℕ → ℕ → List ℕ) → DateTime → ℕ → List ℕ → List ℕ → List ℕ → Bool → Printed
unfolding write_one next_tfmt
write_tokens float_text dt zero fmt buff at bc = out_of_fuel
write_tokens float_text dt (suc fuel) fmt buff at bc =
    write_one float_text dt (write_tokens float_text dt fuel) buff at bc (next_tfmt fmt)

-- `old` is the string in `buff` before the call.
unfoldable pub tm2str : (ℕ → ℕ → ℕ → List ℕ) → DateTime → List ℕ → List ℕ → Printed
unfolding write_tokens format_or
tm2str float_text dt old fmt =
    let f = format_or fmt in write_tokens float_text dt (length f + 1) f [] old false
