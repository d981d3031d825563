-- ===== src/TimeText.antt =====
-- The lexer of date formats, `next_tfmt` of ksources/utl_time.cpp. A C string is the list of its
-- bytes before the zero.
pub mod Tables
pub mod Scan
pub mod Parse
mod Tests
pub mod Words
pub mod Longest
pub mod Match
pub mod Language
pub mod Valid
pub mod Retry
pub mod Passes
pub mod OneYear
pub mod Print
pub mod Digits
pub mod Layout
pub mod Fields
pub mod Between
pub mod Written
pub mod ReadBack
pub mod RoundTrip
pub mod Interval
pub mod IntervalText
use nihao_github_io.Base.{
  ℕ, zero, suc, ◌+◌, Bool, true, false, not, ◌&&◌, ◌||◌, Option, none, some, List, [], ◌∷◌, ltb,
  leb, ◌==◌, if◌then◌else◌, get_elem?, length,
}
use nihao_github_io.Base.Int.{ℤ, pos, negsuc}
use nihao_github_io.Sql.Ctype.{is_alnum}
use Tables.{ch2jmpno, TokenState, states}

-- A token with the format behind it, a word between tokens with that, the end of the format or a
-- text that is no token, or a read behind the end of a table.
pub data Lexed : Type 0 where
  token : ℕ → List ℕ → Lexed
  word : List ℕ → List ℕ → Lexed
  stop : Lexed
  out_of_table : Lexed

-- An entry of a row, by a jump number, and of `ch2jmpno`.
unfoldable pub row_entry : Option TokenState → ℤ → Option ℕ
row_entry none j = none
row_entry (some r) (negsuc n) = some 0
row_entry (some r) (pos n) = get_elem? r.jmp_tab n

unfoldable pub jump : ℕ → Option ℤ → Option ℕ
unfolding row_entry states
jump sta none = none
jump sta (some j) = row_entry (get_elem? states sta) j

unfoldable pub jmp_to : ℕ → ℕ → Option ℕ
unfolding jump ch2jmpno
jmp_to sta ch = jump sta (get_elem? ch2jmpno ch)

unfoldable pub state_token : Option TokenState → Option ℕ
state_token none = none
state_token (some r) = positive r.token_no
  where
    positive : ℤ → Option ℕ
    positive (negsuc n) = none
    positive (pos zero) = none
    positive (pos (suc n)) = some (suc n)

-- `if (states[state].token_no > 0)`: the token that ends here.
unfoldable pub token_at : ℕ → Option ℕ
unfolding state_token states
token_at s = state_token (get_elem? states s)

-- The longest token so far, with what stands behind it.
unfoldable pub newer : Option ℕ → List ℕ → Lexed → Lexed
newer none cs found = found
newer (some k) cs found = token k cs

-- The loop of the lexer, from a state.
unfoldable pub scan_token : List ℕ → ℕ → Lexed → Lexed
scan_token [] s found = found
scan_token (c ∷ cs) s found = elim (jmp_to s c) [
  | none ↦ out_of_table
  | some zero ↦ found
  | some (suc t) ↦ scan_token cs (suc t) (newer (token_at (suc t)) cs found)
]

-- `(*p_e & 0x80) || !isalnum(*p_e)`
unfoldable pub is_separator : ℕ → Bool
is_separator c = leb 128 c || not (is_alnum c)

-- The word up to the next letter or digit.
unfoldable pub separators : List ℕ → List ℕ × List ℕ
unfolding is_separator
separators [] = ([], [])
separators (c ∷ cs) =
    let (w, rest) = separators cs in if is_separator c then (c ∷ w, rest) else ([], c ∷ cs)

unfoldable pub short_word : List ℕ × List ℕ → Lexed
short_word (w, rest) = if ltb (length w) 32 then word w rest else stop

unfoldable pub next_tfmt : List ℕ → Lexed
unfolding scan_token separators short_word is_separator
next_tfmt [] = stop
next_tfmt (c ∷ cs) =
    if is_separator c then short_word (separators (c ∷ cs)) else scan_token (c ∷ cs) 0 stop
