-- ===== src/TimeText/Digits.antt =====
-- The numbers that `tm2str` of ksources/utl_time.cpp writes and `str2tm` reads.
use nihao_github_io.Base.{ℕ, ◌+◌, ◌*◌, ◌/◌, ◌%◌, ◌<◌, ◌≡◌, ap, ◌∙◌, List, [], ◌∷◌, ◌++◌, arith}
use nihao_github_io.TimeText.Scan.{is_digit, skip_to_digit, read_digits, number}
use nihao_github_io.TimeText.Print.{higher_digits, put_digits, padded}

pub padded2 : (n : ℕ) → n < 100 → padded 2 n ≡ (48 + n / 10) ∷ (48 + n % 10) ∷ []
unfolding padded put_digits higher_digits
padded2 n h = ground arith

pub padded4 :
    (n : ℕ)
    → n < 10000
    → padded 4 n ≡ (48 + n / 1000) ∷ (48 + n / 100 % 10) ∷ (48 + n / 10 % 10) ∷ (48 + n % 10) ∷ []
unfolding padded put_digits higher_digits
padded4 n h = ground arith

number_two :
    (a b : ℕ) (rest : List ℕ)
    → a < 10
    → b < 10
    → number 2 0 ((48 + a) ∷ (48 + b) ∷ rest) ≡ (a * 10 + b, rest)
unfolding number skip_to_digit read_digits is_digit
number_two a b rest ha hb = ground arith

number_four :
    (a b c d : ℕ) (rest : List ℕ)
    → a < 10
    → b < 10
    → c < 10
    → d < 10
    → number 4 0 ((48 + a) ∷ (48 + b) ∷ (48 + c) ∷ (48 + d) ∷ rest)
      ≡ (a * 1000 + b * 100 + c * 10 + d, rest)
unfolding number skip_to_digit read_digits is_digit
number_four a b c d rest ha hb hc hd = ground arith

-- A number that is written with its digits is read again.
pub number-padded2 : (n : ℕ) (rest : List ℕ) → n < 100 → number 2 0 (padded 2 n ++ rest) ≡ (n, rest)
number-padded2 n rest h =
    ap (λ t. number 2 0 (t ++ rest)) (padded2 n h)
    ∙ number_two (n / 10) (n % 10) rest (omega arith) (omega arith)
    ∙ ap (λ v. (v, rest)) (omega arith)

pub number-padded4 :
    (n : ℕ) (rest : List ℕ) → n < 10000 → number 4 0 (padded 4 n ++ rest) ≡ (n, rest)
number-padded4 n rest h =
    ap (λ t. number 4 0 (t ++ rest)) (padded4 n h)
    ∙ number_four (n / 1000) (n / 100 % 10) (n / 10 % 10) (n % 10) rest (omega arith) (omega arith)
        (omega arith) (omega arith)
    ∙ ap (λ v. (v, rest)) (omega arith)
