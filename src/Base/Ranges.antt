-- ===== src/Base/Ranges.antt =====
-- Checks over a range of numbers, by evaluation.
use nihao_github_io.Base.{ℕ, zero, suc, ◌<◌, ◌≡◌, Bool, true, false, if◌then◌else◌, arith}

unfoldable pub all_below : ℕ → (ℕ → Bool) → Bool
all_below zero test = true
all_below (suc last) test = let rest = all_below last test in if test last then rest else false

pub all_below_sound :
    (bound : ℕ) (test : ℕ → Bool) (i : ℕ) → all_below bound test ≡ true → i < bound → test i ≡ true
unfolding all_below
all_below_sound zero test i checked within = absurd (omega arith)
all_below_sound (suc last) test i checked within =
    let earlier = all_below_sound last test i in ground (arith, earlier)
