-- ===== src/Decimal/Tests.antt =====
-- Decimal texts.
use nihao_github_io.Base.{ℕ, ◌≡◌, refl, [], ◌∷◌, map}
use nihao_github_io.Base.Int.{pos, negsuc}
use nihao_github_io.Decimal.{i4toa, i8toa, ui4toa}
use nihao_github_io.Decimal.Texts.{IsText, i4toa-IsText}

abbrev zeros : ℕ → ℕ
zeros i = 0

-- -1024
sign_run :
    map (i4toa (negsuc 1023) zeros 2) (1 ∷ 2 ∷ 3 ∷ 4 ∷ 5 ∷ 6 ∷ 7 ∷ [])
    ≡ 0 ∷ b'-' ∷ b'1' ∷ b'0' ∷ b'2' ∷ b'4' ∷ 0 ∷ []
unfolding i4toa
sign_run = refl

i4toa-IsText_example :
    IsText (negsuc 1023) zeros 2 (i4toa (negsuc 1023) zeros 2)
    × IsText (negsuc 1023) zeros 2 (i8toa (negsuc 1023) zeros 2)
    × IsText (pos 7) zeros 2 (ui4toa 7 zeros 2)
i4toa-IsText_example = i4toa-IsText (negsuc 1023) 7 zeros 2
