-- ===== src/Hex/Tests.antt =====
-- Texts of concrete integers.
use nihao_github_io.Base.{◌≡◌, refl, [], ◌∷◌, arith}
use nihao_github_io.Base.Int.{pos, negsuc}
use nihao_github_io.Hex.{ui4toh, ui8toh, i4toh, i8toh}
use nihao_github_io.Hex.Values.{IsHex, ui8toh-IsHex, IsSignedHex, texts-IsSignedHex}

-- 0012AB0F and FFFFFFFE
hex_runs :
    (ui4toh 1223439 ≡ b'0' ∷ b'0' ∷ b'1' ∷ b'2' ∷ b'A' ∷ b'B' ∷ b'0' ∷ b'F' ∷ [])
    × (i4toh (negsuc 1) ≡ b'F' ∷ b'F' ∷ b'F' ∷ b'F' ∷ b'F' ∷ b'F' ∷ b'F' ∷ b'E' ∷ [])
unfolding ui4toh i4toh
hex_runs = (refl, refl)

ui8toh-IsHex_example : IsHex 16 81985529216486895 (ui8toh 81985529216486895)
ui8toh-IsHex_example = ui8toh-IsHex 81985529216486895 (omega arith)

texts-IsSignedHex_example :
    IsSignedHex 32 8 (negsuc 1) (i4toh (negsuc 1)) × IsSignedHex 64 16 (pos 7) (i8toh (pos 7))
texts-IsSignedHex_example = texts-IsSignedHex (negsuc 1) (pos 7) (omega arith) (omega arith)
