-- ===== src/TimeText/Scan.antt =====
-- The pieces of `str2tm` in ksources/utl_time.cpp. The numbers it builds are exact;
-- a pass tests at its end whether they are `int`s.
use nihao_github_io.Base.{
  ℕ, zero, suc, ◌+◌, ◌-◌, ◌*◌, ◌%◌, Bool, true, false, ◌&&◌, ◌||◌, List, [], ◌∷◌, leb, ◌==◌,
  if◌then◌else◌, get_or,
}
use nihao_github_io.Sql.Ctype.{upper}

unfoldable pub is_digit : ℕ → Bool
is_digit c = leb b'0' c && leb c b'9'

-- `while (*str != 0x0 && (*str < '0' || *str > '9')) str++;`
unfoldable pub skip_to_digit : List ℕ → List ℕ
unfolding is_digit
skip_to_digit [] = []
skip_to_digit (c ∷ cs) = let rest = skip_to_digit cs in if is_digit c then c ∷ cs else rest

-- `while (*str == ' ') str++;`
unfoldable pub skip_blanks : List ℕ → List ℕ
skip_blanks [] = []
skip_blanks (c ∷ cs) = let rest = skip_blanks cs in if c == b' ' then rest else c ∷ cs

-- Up to `n` digits, behind the value of those before.
unfoldable pub read_digits : ℕ → ℕ → List ℕ → ℕ × List ℕ
unfolding is_digit
read_digits zero v str = (v, str)
read_digits (suc n) v [] = (v, [])
read_digits (suc n) v (c ∷ cs) =
    let r = read_digits n (v * 10 + (c - b'0')) cs in if is_digit c then r else (v, c ∷ cs)

unfoldable pub number : ℕ → ℕ → List ℕ → ℕ × List ℕ
unfolding skip_to_digit read_digits
number n v str = read_digits n v (skip_to_digit str)

unfoldable pub exp10s : List ℕ
exp10s = 1 ∷ 10 ∷ 100 ∷ 1000 ∷ 10000 ∷ 100000 ∷ 1000000 ∷ []

-- The digits of a fraction, up to `n` behind `i` others: their number, the value, and the rest.
unfoldable pub read_fraction : ℕ → ℕ → ℕ → List ℕ → ℕ × ℕ × List ℕ
unfolding is_digit
read_fraction zero i us str = (i, us, str)
read_fraction (suc n) i us [] = (i, us, [])
read_fraction (suc n) i us (c ∷ cs) =
    let r = read_fraction n (i + 1) (us * 10 + (c - b'0')) cs in
    if is_digit c then r else (i, us, c ∷ cs)

-- `while (isdigit((uchar)*str)) str++;`
unfoldable pub skip_digits : List ℕ → List ℕ
unfolding is_digit
skip_digits [] = []
skip_digits (c ∷ cs) = let rest = skip_digits cs in if is_digit c then rest else c ∷ cs

unfoldable pub scaled : ℕ × ℕ × List ℕ → ℕ × List ℕ
unfolding exp10s skip_digits
scaled (i, us, str) = (us * get_or exp10s (6 - i) 0, skip_digits str)

-- `if (*str == '.') …`
unfoldable pub fraction : ℕ → ℕ → List ℕ → ℕ × List ℕ
unfolding read_fraction scaled
fraction scale us [] = (us, [])
fraction scale us (c ∷ cs) =
    let r = scaled (read_fraction scale 0 us cs) in if c == b'.' then r else (us, c ∷ cs)

-- The variables of a pass, which are of the type `int` in the source.
pub record Fields : Type 0 where
  pub y : ℕ
  pub m : ℕ
  pub d : ℕ
  pub h : ℕ
  pub mi : ℕ
  pub s : ℕ
  pub us : ℕ
  pub y2_as_y4 : Bool

unfoldable pub fresh : Bool → Fields
fresh flag = record { y = 0; m = 1; d = 1; h = 0; mi = 0; s = 0; us = 0; y2_as_y4 = flag }

abbrev pub Read : Type 0
Read = Fields × List ℕ

unfoldable pub set_y : Fields → ℕ → ℕ × List ℕ → Read
set_y f base (v, str) = (record f { y = v + base }, str)

-- `case Y2`: two digits in the century that the clock shows, or at a second try four.
unfoldable pub read_y2 : ℕ → Fields → List ℕ → Read
unfolding number set_y
read_y2 this_year f str =
    if f.y2_as_y4
    then set_y (record f { y2_as_y4 = false }) 0 (number 4 f.y str)
    else set_y (record f { y2_as_y4 = true }) (this_year - this_year % 1000) (number 2 f.y str)

unfoldable pub read_y3 : ℕ → Fields → List ℕ → Read
unfolding number set_y
read_y3 this_year f str = set_y f (this_year - this_year % 100) (number 3 f.y str)

unfoldable pub read_y4 : Fields → List ℕ → Read
unfolding number set_y
read_y4 f str = set_y f 0 (number 4 f.y str)

unfoldable pub read_mm : Fields → List ℕ → Read
unfolding number
read_mm f str = let (v, rest) = number 2 0 str in (record f { m = v }, rest)

unfoldable pub read_dd : Fields → List ℕ → Read
unfolding number
read_dd f str = let (v, rest) = number 2 0 str in (record f { d = v }, rest)

unfoldable pub read_hh : Fields → List ℕ → Read
unfolding number
read_hh f str = let (v, rest) = number 2 f.h str in (record f { h = v }, rest)

unfoldable pub read_mi : Fields → List ℕ → Read
unfolding number
read_mi f str = let (v, rest) = number 2 f.mi str in (record f { mi = v }, rest)

unfoldable pub read_ss : ℕ → Fields → List ℕ → Read
unfolding number fraction
read_ss scale f str =
    let (v, rest) = number 2 f.s str in
    let (us, rest') = fraction scale f.us rest in (record f { s = v; us = us }, rest')

-- The `switch` over the tokens of `TFmt`; those without a case change nothing.
unfoldable pub read_token : ℕ → ℕ → ℕ → Fields → List ℕ → Read
unfolding read_y2 read_y3 read_y4 read_mm read_dd read_hh read_mi read_ss
read_token this_year scale k f str =
    if k == 23
    then read_y2 this_year f str
    else if k == 24
    then read_y3 this_year f str
    else if k == 25
    then read_y4 f str
    else if k == 12
    then read_mm f str
    else if k == 6
    then read_dd f str
    else if (k == 9) || (k == 10)
    then read_hh f str
    else if k == 11
    then read_mi f str
    else if leb 16 k && leb k 22
    then read_ss scale f str
    else (f, str)

-- `astricmp(str, word) == 0`.
unfoldable pub same_word : List ℕ → List ℕ → Bool
unfolding upper
same_word [] [] = true
same_word [] (b ∷ bs) = false
same_word (a ∷ rest) [] = false
same_word (a ∷ rest) (b ∷ bs) = (upper a == upper b) && same_word rest bs

-- The text starts with `BC` or `AD`.
unfoldable pub at_era : List ℕ → Bool
unfolding upper
at_era [] = false
at_era (a ∷ []) = false
at_era (a ∷ b ∷ cs) =
    ((upper a == b'B') && (upper b == b'C')) || ((upper a == b'A') && (upper b == b'D'))
