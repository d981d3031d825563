-- ===== src/Hex.antt =====
-- The hexadecimal writers of kinclude/kci_string.h, as on a machine with the low byte first. An
-- integer in memory is its four bytes, or its low and its high four bytes, in the order of their
-- addresses. A signed integer is in memory as its two's complement.
pub mod Values
mod Tests
use nihao_github_io.Base.{ℕ, ◌+◌, ◌-◌, ◌*◌, ◌/◌, ◌%◌, ◌^◌, List, [], ◌∷◌, ◌++◌, ltb, if◌then◌else◌}
use nihao_github_io.Base.Int.{ℤ, pos, negsuc}

abbrev pub Four : Type 0
Four = ℕ × ℕ × ℕ × ℕ

-- `ch < 10 ? ch + '0' : ch + ('A' - 10)`
unfoldable pub nibble : ℕ → ℕ
nibble ch = if ltb ch 10 then ch + b'0' else ch + 55

-- The two digits of one byte.
unfoldable pub byte_hex : ℕ → List ℕ
unfolding nibble
byte_hex ch = nibble (ch / 16) ∷ nibble (ch % 16) ∷ []

unfoldable pub memory4 : ℕ → Four
memory4 i = (i % 256, i / 256 % 256, i / 65536 % 256, i / 16777216 % 256)

-- `SG_SWAP4` and `SG_SWAP8`.
unfoldable pub sg_swap4 : Four → Four
sg_swap4 (a, b, c, d) = (d, c, b, a)

unfoldable pub sg_swap8 : Four × Four → Four × Four
sg_swap8 ((a, b, c, d), (e, f, g, h)) = ((h, g, f, e), (d, c, b, a))

unfoldable pub hex4 : Four → List ℕ
unfolding byte_hex
hex4 (a, b, c, d) = byte_hex a ++ (byte_hex b ++ (byte_hex c ++ byte_hex d))

unfoldable pub ui4toh : ℕ → List ℕ
unfolding hex4 sg_swap4 memory4
ui4toh i = hex4 (sg_swap4 (memory4 i))

unfoldable pub ui8toh : ℕ → List ℕ
unfolding hex4 sg_swap8 memory4
ui8toh i = let r = sg_swap8 (memory4 (i % 2 ^ 32), memory4 (i / 2 ^ 32)) in hex4 r.0 ++ hex4 r.1

-- A signed integer in a word of `2 ^ n` values.
unfoldable pub word : ℕ → ℤ → ℕ
word n (pos k) = k
word n (negsuc k) = 2 ^ n - (k + 1)

unfoldable pub i4toh : ℤ → List ℕ
unfolding ui4toh word
i4toh i = ui4toh (word 32 i)

unfoldable pub i8toh : ℤ → List ℕ
unfolding ui8toh word
i8toh i = ui8toh (word 64 i)
