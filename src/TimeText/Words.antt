-- ===== src/TimeText/Words.antt =====
-- The words of a date format.
use nihao_github_io.Base.{
  ℕ, zero, suc, ◌+◌, ◌≡◌, refl, Bool, true, false, not, ◌&&◌, Option, none, some, List, [], ◌∷◌,
  ◌++◌, ltb, leb, ◌==◌, if◌then◌else◌, get_or,
}
use nihao_github_io.Base.Ranges.{all_below}
use nihao_github_io.TimeText.{jmp_to, token_at}

abbrev pub Word : Type 0
Word = List ℕ × ℕ

-- Each word in small letters, with its number in the enumeration `TFmt`.
abbrev pub words : List Word
words =
    (b'a' ∷ b'd' ∷ [], 1)
    ∷ (b'a' ∷ b'm' ∷ [], 2)
    ∷ (b'b' ∷ b'c' ∷ [], 3)
    ∷ (b'd' ∷ b'a' ∷ b'y' ∷ [], 4)
    ∷ (b'd' ∷ [], 5)
    ∷ (b'd' ∷ b'd' ∷ [], 6)
    ∷ (b'd' ∷ b'd' ∷ b'd' ∷ [], 7)
    ∷ (b'd' ∷ b'y' ∷ [], 8)
    ∷ (b'h' ∷ b'h' ∷ [], 9)
    ∷ (b'h' ∷ b'h' ∷ b'2' ∷ b'4' ∷ [], 10)
    ∷ (b'm' ∷ b'i' ∷ [], 11)
    ∷ (b'm' ∷ b'm' ∷ [], 12)
    ∷ (b'm' ∷ b'o' ∷ b'n' ∷ [], 13)
    ∷ (b'm' ∷ b'o' ∷ b'n' ∷ b't' ∷ b'h' ∷ [], 14)
    ∷ (b'p' ∷ b'm' ∷ [], 15)
    ∷ (b's' ∷ b's' ∷ [], 16)
    ∷ (b's' ∷ b's' ∷ b's' ∷ [], 17)
    ∷ (b's' ∷ b's' ∷ b's' ∷ b's' ∷ [], 18)
    ∷ (b's' ∷ b's' ∷ b's' ∷ b's' ∷ b's' ∷ [], 19)
    ∷ (b's' ∷ b's' ∷ b's' ∷ b's' ∷ b's' ∷ b's' ∷ [], 20)
    ∷ (b's' ∷ b's' ∷ b's' ∷ b's' ∷ b's' ∷ b's' ∷ b's' ∷ [], 21)
    ∷ (b's' ∷ b's' ∷ b's' ∷ b's' ∷ b's' ∷ b's' ∷ b's' ∷ b's' ∷ [], 22)
    ∷ (b'y' ∷ b'y' ∷ [], 23)
    ∷ (b'y' ∷ b'y' ∷ b'y' ∷ [], 24)
    ∷ (b'y' ∷ b'y' ∷ b'y' ∷ b'y' ∷ [], 25)
    ∷ []

-- The number of a word.
unfoldable pub same_text : List ℕ → List ℕ → Bool
same_text [] [] = true
same_text [] (y ∷ ys) = false
same_text (x ∷ xs) [] = false
same_text (x ∷ xs) (y ∷ ys) = (x == y) && same_text xs ys

unfoldable pub lookup : List ℕ → List Word → Option ℕ
unfolding same_text
lookup w [] = none
lookup w ((v, k) ∷ rest) = let later = lookup w rest in if same_text w v then some k else later

abbrev pub kind : List ℕ → Option ℕ
kind w = lookup w words

-- A capital stands for its small letter.
unfoldable pub lower : ℕ → ℕ
lower c = if leb b'A' c && leb c b'Z' then c + 32 else c

-- What is left of a text behind a word that it starts with.
unfoldable pub behind : List ℕ → List ℕ → Option (List ℕ)
unfolding lower
behind [] text = some text
behind (x ∷ w) [] = none
behind (x ∷ w) (c ∷ cs) = let rest = behind w cs in if x == lower c then rest else none

-- The word that leads to a state.
abbrev read_words : List (List ℕ)
read_words =
    ([])
    ∷ (b'a' ∷ [])
    ∷ (b'b' ∷ [])
    ∷ (b'd' ∷ [])
    ∷ (b'h' ∷ [])
    ∷ (b'm' ∷ [])
    ∷ (b'p' ∷ [])
    ∷ (b's' ∷ [])
    ∷ (b'y' ∷ [])
    ∷ (b'a' ∷ b'd' ∷ [])
    ∷ (b'a' ∷ b'm' ∷ [])
    ∷ (b'b' ∷ b'c' ∷ [])
    ∷ (b'd' ∷ b'a' ∷ [])
    ∷ (b'd' ∷ b'd' ∷ [])
    ∷ (b'd' ∷ b'y' ∷ [])
    ∷ (b'h' ∷ b'h' ∷ [])
    ∷ (b'm' ∷ b'i' ∷ [])
    ∷ (b'm' ∷ b'm' ∷ [])
    ∷ (b'm' ∷ b'o' ∷ [])
    ∷ (b'p' ∷ b'm' ∷ [])
    ∷ (b's' ∷ b's' ∷ [])
    ∷ (b'y' ∷ b'y' ∷ [])
    ∷ (b'd' ∷ b'a' ∷ b'y' ∷ [])
    ∷ (b'd' ∷ b'd' ∷ b'd' ∷ [])
    ∷ (b'h' ∷ b'h' ∷ b'2' ∷ [])
    ∷ (b'm' ∷ b'o' ∷ b'n' ∷ [])
    ∷ (b's' ∷ b's' ∷ b's' ∷ [])
    ∷ (b'y' ∷ b'y' ∷ b'y' ∷ [])
    ∷ (b'h' ∷ b'h' ∷ b'2' ∷ b'4' ∷ [])
    ∷ (b'm' ∷ b'o' ∷ b'n' ∷ b't' ∷ [])
    ∷ (b's' ∷ b's' ∷ b's' ∷ b's' ∷ [])
    ∷ (b'y' ∷ b'y' ∷ b'y' ∷ b'y' ∷ [])
    ∷ (b'm' ∷ b'o' ∷ b'n' ∷ b't' ∷ b'h' ∷ [])
    ∷ (b's' ∷ b's' ∷ b's' ∷ b's' ∷ b's' ∷ [])
    ∷ (b's' ∷ b's' ∷ b's' ∷ b's' ∷ b's' ∷ b's' ∷ [])
    ∷ (b's' ∷ b's' ∷ b's' ∷ b's' ∷ b's' ∷ b's' ∷ b's' ∷ [])
    ∷ (b's' ∷ b's' ∷ b's' ∷ b's' ∷ b's' ∷ b's' ∷ b's' ∷ b's' ∷ [])
    ∷ []

abbrev pub reads : ℕ → List ℕ
reads s = get_or read_words s []

-- No word starts with this.
unfoldable pub starts_with : List ℕ → List ℕ → Bool
starts_with [] v = true
starts_with (x ∷ xs) [] = false
starts_with (x ∷ xs) (y ∷ ys) = (x == y) && starts_with xs ys

unfoldable pub no_start : List ℕ → List Word → Bool
unfolding starts_with
no_start w [] = true
no_start w ((v, k) ∷ rest) = not (starts_with w v) && no_start w rest

unfoldable pub same_option : Option ℕ → Option ℕ → Bool
same_option none none = true
same_option none (some b) = false
same_option (some a) none = false
same_option (some a) (some b) = a == b

unfoldable pub state_ok : ℕ → Bool
unfolding same_option lookup same_text
state_ok s = same_option (token_at s) (kind (reads s))

unfoldable pub step_ok : List ℕ → Option ℕ → Bool
unfolding same_text no_start
step_ok w none = false
step_ok w (some zero) = no_start w words
step_ok w (some (suc t)) = ltb t 36 && same_text (reads (suc t)) w

unfoldable pub steps_ok : ℕ → ℕ → Bool
unfolding step_ok lower
steps_ok s c = step_ok (reads s ++ (lower c ∷ [])) (jmp_to s c)

pub states_checked : all_below 37 state_ok ≡ true
unfolding all_below state_ok token_at
states_checked = refl

pub steps_checked : all_below 37 (λ s. all_below 128 (steps_ok s)) ≡ true
unfolding all_below steps_ok jmp_to
steps_checked = refl
