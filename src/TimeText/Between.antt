-- ===== src/TimeText/Between.antt =====
-- How `str2tm` of ksources/utl_time.cpp passes over the bytes between two numbers.
use nihao_github_io.Base.{
  ℕ, ◌≡◌, refl, ap, ◌∙◌, Bool, true, false, ◌&&◌, ◌||◌, List, [], ◌∷◌, ◌++◌, ◌==◌, if_rule, arith,
}
use nihao_github_io.Sql.Ctype.{is_alnum, upper}
use nihao_github_io.TimeText.{is_separator}
use nihao_github_io.TimeText.Scan.{is_digit, skip_to_digit, skip_blanks, at_era}
use nihao_github_io.TimeText.Layout.{all_separators}

-- A text that is at its end or at a number.
unfoldable pub at_number : List ℕ → Bool
unfolding is_digit
at_number [] = true
at_number (c ∷ cs) = is_digit c

pub both_true : (a b : Bool) → (a && b) ≡ true → (a ≡ true) × (b ≡ true)
both_true true true e = (refl, refl)
both_true true false e = cc
both_true false b e = cc

separator_digit : (c : ℕ) → is_separator c ≡ true → is_digit c ≡ false
unfolding is_separator is_alnum is_digit
separator_digit c h = ground arith

pub skip_to_digit-at_number : (t : List ℕ) → at_number t ≡ true → skip_to_digit t ≡ t
unfolding skip_to_digit at_number
skip_to_digit-at_number [] h = refl
skip_to_digit-at_number (c ∷ cs) h = rw h refl

pub skip_to_digit_between :
    (w t : List ℕ) → all_separators w ≡ true → at_number t ≡ true → skip_to_digit (w ++ t) ≡ t
unfolding skip_to_digit all_separators
skip_to_digit_between [] t h n = skip_to_digit-at_number t n
skip_to_digit_between (c ∷ cs) t h n =
    let (a, b) = both_true (is_separator c) (all_separators cs) h in
    rw (separator_digit c a, skip_to_digit_between cs t b n) refl

pub skip_blanks-at_number : (t : List ℕ) → at_number t ≡ true → skip_blanks t ≡ t
unfolding skip_blanks at_number is_digit
skip_blanks-at_number [] h = refl
skip_blanks-at_number (c ∷ cs) h = ground arith

pub skip_between :
    (w t : List ℕ)
    → all_separators w ≡ true
    → at_number t ≡ true
    → skip_to_digit (skip_blanks (w ++ t)) ≡ t
unfolding skip_blanks all_separators
skip_between [] t h n = ap skip_to_digit (skip_blanks-at_number t n) ∙ skip_to_digit-at_number t n
skip_between (c ∷ cs) t h n =
    let (a, b) = both_true (is_separator c) (all_separators cs) h in
    if_rule (λ x. skip_to_digit x ≡ t) (c == b' ') (skip_blanks (cs ++ t)) (c ∷ (cs ++ t))
      (λ _. skip_between cs t b n) (λ _. skip_to_digit_between (c ∷ cs) t h n)

at_era_separator :
    (c : ℕ) (cs : List ℕ) → (is_separator c || is_digit c) ≡ true → at_era (c ∷ cs) ≡ false
unfolding at_era is_separator is_alnum is_digit upper
at_era_separator c [] h = refl
at_era_separator c (b ∷ cs) h = ground arith

at_era-at_number : (t : List ℕ) → at_number t ≡ true → at_era t ≡ false
unfolding at_era at_number
at_era-at_number [] h = refl
at_era-at_number (c ∷ cs) h = at_era_separator c cs (or_right (is_separator c) (is_digit c) h)
  where
    or_right : (a b : Bool) → b ≡ true → (a || b) ≡ true
    or_right true b e = refl
    or_right false b e = e

pub no_era_between :
    (w t : List ℕ)
    → all_separators w ≡ true
    → at_number t ≡ true
    → at_era (skip_blanks (w ++ t)) ≡ false
unfolding skip_blanks all_separators
no_era_between [] t h n = ap at_era (skip_blanks-at_number t n) ∙ at_era-at_number t n
no_era_between (c ∷ cs) t h n =
    let (a, b) = both_true (is_separator c) (all_separators cs) h in
    if_rule (λ x. at_era x ≡ false) (c == b' ') (skip_blanks (cs ++ t)) (c ∷ (cs ++ t))
      (λ _. no_era_between cs t b n) (λ _. at_era_separator c (cs ++ t) (rw a refl))
