-- ===== src/LinkMem/Times.antt =====
-- How often a number stands in a list, for lists through memory as in kinclude/kci_types.h.
use nihao_github_io.Base.{ℕ, ◌+◌, ◌≡◌, List, [], ◌∷◌, ◌++◌, ◌==◌, if◌then◌else◌, arith}
use nihao_github_io.LinkMem.{remove}

unfoldable pub times_in : ℕ → List ℕ → ℕ
times_in c [] = 0
times_in c (d ∷ ds) = (if c == d then 1 else 0) + times_in c ds

pub times_remove :
    (c d : ℕ) (xs : List ℕ) → times_in d (remove c xs) ≡ (if d == c then 0 else times_in d xs)
unfolding times_in remove
times_remove c d [] = ground arith
times_remove c d (x ∷ xs) = let rest = times_remove c d xs in ground (arith, rest)

pub times_snoc :
    (c d : ℕ) (xs : List ℕ)
    → times_in d (xs ++ (c ∷ [])) ≡ times_in d xs + (if d == c then 1 else 0)
unfolding times_in
times_snoc c d [] = ground arith
times_snoc c d (x ∷ xs) = let rest = times_snoc c d xs in ground (arith, rest)
