-- ===== src/Hex/Values.antt =====
-- What the digits that are written stand for.
use nihao_github_io.Base.{
  ℕ, length, ◌+◌, ◌-◌, ◌*◌, ◌/◌, ◌%◌, ◌^◌, ◌≤◌, ◌<◌, ◌≡◌, ◌⊎◌, refl, ◌∙◌, ap, List, [], ◌∷◌, ◌++◌,
  ltb, if◌then◌else◌, arith,
}
use nihao_github_io.Base.Int.{ℤ, pos, negsuc}
use nihao_github_io.Hex.{
  Four, nibble, byte_hex, memory4, sg_swap4, sg_swap8, hex4, ui4toh, ui8toh, word, i4toh, i8toh,
}

-- The value of a digit, 0 to 9 or A to F, and of a text of digits behind a value.
abbrev digit_value : ℕ → ℕ
digit_value c = if ltb c b'A' then c - b'0' else c - 55

abbrev pub hex_value : ℕ → List ℕ → ℕ
hex_value v [] = v
hex_value v (c ∷ cs) = hex_value (v * 16 + digit_value c) cs

-- The digits 0 to 9 and A to F.
abbrev pub IsHexDigit : ℕ → Type 0
IsHexDigit c = ((b'0' ≤ c) × (c ≤ b'9')) ⊎ ((b'A' ≤ c) × (c ≤ b'F'))

abbrev pub AreHexDigits : List ℕ → Type 0
AreHexDigits [] = Unit {0}
AreHexDigits (c ∷ cs) = IsHexDigit c × AreHexDigits cs

nibble-IsHexDigit : (ch : ℕ) → ch < 16 → IsHexDigit (nibble ch)
unfolding nibble
nibble-IsHexDigit ch h = ground (arith, h)

digit_value-nibble : (ch : ℕ) → ch < 16 → digit_value (nibble ch) ≡ ch
unfolding nibble
digit_value-nibble ch h = ground arith

hex_value-byte_hex :
    (v ch : ℕ) (cs : List ℕ)
    → ch < 256
    → hex_value v (byte_hex ch ++ cs) ≡ hex_value (v * 256 + ch) cs
unfolding byte_hex
hex_value-byte_hex v ch cs h =
    let high = digit_value-nibble (ch / 16) (omega arith) in
    let low = digit_value-nibble (ch % 16) (omega arith) in
    rw high (rw low (ap (λ x. hex_value x cs) (omega arith)))

-- Four bytes, the high one first.
abbrev number : ℕ → Four → ℕ
number v (a, b, c, d) = (((v * 256 + a) * 256 + b) * 256 + c) * 256 + d

abbrev AreBytes : Four → Type 0
AreBytes (a, b, c, d) = (a < 256) × (b < 256) × (c < 256) × (d < 256)

hex_value-hex4 :
    (v a b c d : ℕ) (cs : List ℕ)
    → AreBytes (a, b, c, d)
    → hex_value v (hex4 (a, b, c, d) ++ cs) ≡ hex_value (number v (a, b, c, d)) cs
unfolding hex4 byte_hex
hex_value-hex4 v a b c d cs h =
    let last = byte_hex d ++ cs in
    hex_value-byte_hex v a (byte_hex b ++ (byte_hex c ++ last)) h.0
    ∙ hex_value-byte_hex (v * 256 + a) b (byte_hex c ++ last) h.1
    ∙ hex_value-byte_hex ((v * 256 + a) * 256 + b) c last h.2
    ∙ hex_value-byte_hex (((v * 256 + a) * 256 + b) * 256 + c) d cs h.3

hex4-AreHexDigits :
    (w : Four) (cs : List ℕ) → AreBytes w → AreHexDigits cs → AreHexDigits (hex4 w ++ cs)
unfolding hex4 byte_hex
hex4-AreHexDigits (a, b, c, d) cs (ha, hb, hc, hd) rest = (
  nibble-IsHexDigit (a / 16) (omega arith),
  (
    nibble-IsHexDigit (a % 16) (omega arith),
    (
      nibble-IsHexDigit (b / 16) (omega arith),
      (
        nibble-IsHexDigit (b % 16) (omega arith),
        (
          nibble-IsHexDigit (c / 16) (omega arith),
          (
            nibble-IsHexDigit (c % 16) (omega arith),
            (
              nibble-IsHexDigit (d / 16) (omega arith),
              (nibble-IsHexDigit (d % 16) (omega arith), rest),
            ),
          ),
        ),
      ),
    ),
  ),
)

word-AreHexDigits :
    (i : ℕ) (cs : List ℕ)
    → i < 2 ^ 32
    → AreHexDigits cs
    → AreHexDigits (hex4 (sg_swap4 (memory4 i)) ++ cs)
unfolding sg_swap4 memory4
word-AreHexDigits i cs h rest =
    hex4-AreHexDigits (i / 16777216 % 256, i / 65536 % 256, i / 256 % 256, i % 256) cs
      (omega arith, omega arith, omega arith, omega arith) rest

-- The bytes of a word, read from the high one.
word_lem :
    (v i : ℕ) (cs : List ℕ)
    → i < 2 ^ 32
    → hex_value v (hex4 (sg_swap4 (memory4 i)) ++ cs) ≡ hex_value (v * 2 ^ 32 + i) cs
unfolding sg_swap4 memory4
word_lem v i cs h =
    hex_value-hex4 v (i / 16777216 % 256) (i / 65536 % 256) (i / 256 % 256) (i % 256) cs
      (omega arith, omega arith, omega arith, omega arith)
    ∙ ap (λ x. hex_value x cs) (omega arith)

-- The text is `n` hexadecimal digits that stand for `i`.
abbrev pub IsHex : ℕ → ℕ → List ℕ → Type 0
IsHex n i text = (hex_value 0 text ≡ i) × (length text ≡ n) × AreHexDigits text

-- `ui4toh` writes a number below 2 ^ 32 as eight digits of 0 to 9 and A to F, the high one first,
-- that have the number as their value.
ui4toh-IsHex : (i : ℕ) → i < 2 ^ 32 → IsHex 8 i (ui4toh i)
unfolding ui4toh hex4 byte_hex
ui4toh-IsHex i h = (word_lem 0 i [] h ∙ omega arith, refl, word-AreHexDigits i [] h tt)

-- `ui8toh` writes a number below 2 ^ 64 as sixteen digits of 0 to 9 and A to F, the high one first,
-- that have the number as their value.
pub ui8toh-IsHex : (i : ℕ) → i < 2 ^ 64 → IsHex 16 i (ui8toh i)
unfolding ui8toh hex4 byte_hex sg_swap8 sg_swap4 memory4
ui8toh-IsHex i h = (
  word_lem 0 (i / 2 ^ 32) (hex4 (sg_swap4 (memory4 (i % 2 ^ 32)))) (omega arith)
      ∙ word_lem (0 * 2 ^ 32 + i / 2 ^ 32) (i % 2 ^ 32) [] (omega arith)
      ∙ omega arith,
  refl,
  word-AreHexDigits (i / 2 ^ 32) (hex4 (sg_swap4 (memory4 (i % 2 ^ 32)))) (omega arith)
      (word-AreHexDigits (i % 2 ^ 32) [] (omega arith) tt),
)

-- A word of `2 ^ n` values as a signed integer.
abbrev pub signed : ℕ → ℕ → ℤ
signed n v = if ltb v (2 ^ (n - 1)) then pos v else negsuc (2 ^ n - 1 - v)

-- The integers of such a word.
abbrev pub InWord : ℕ → ℤ → Type 0
InWord n (pos k) = k < 2 ^ (n - 1)
InWord n (negsuc k) = k < 2 ^ (n - 1)

-- A word that is read back.
signed_four : (i : ℤ) → InWord 32 i → (word 32 i < 2 ^ 32) × (signed 32 (word 32 i) ≡ i)
unfolding word
signed_four (pos k) h = (omega arith, ground (arith, h))
signed_four (negsuc k) h = (omega arith, ground (arith, h))

signed_eight : (i : ℤ) → InWord 64 i → (word 64 i < 2 ^ 64) × (signed 64 (word 64 i) ≡ i)
unfolding word
signed_eight (pos k) h = (omega arith, ground (arith, h))
signed_eight (negsuc k) h = (omega arith, ground (arith, h))

-- The text is `n` hexadecimal digits that stand for the two's complement of `i` in `w` bits.
abbrev pub IsSignedHex : ℕ → ℕ → ℤ → List ℕ → Type 0
IsSignedHex w n i text = (signed w (hex_value 0 text) ≡ i) × (length text ≡ n) × AreHexDigits text

IsHex-IsSignedHex :
    (w n v : ℕ) (i : ℤ) (text : List ℕ) → signed w v ≡ i → IsHex n v text → IsSignedHex w n i text
IsHex-IsSignedHex w n v i text e h = (ap (signed w) h.0 ∙ e, h.1, h.2)

-- `i4toh` and `i8toh` write a signed integer of 32 or 64 bits as the eight or sixteen digits, of 0
-- to 9 and A to F, of its two's complement, from which the integer can be read back.
pub texts-IsSignedHex :
    (i j : ℤ)
    → InWord 32 i
    → InWord 64 j
    → IsSignedHex 32 8 i (i4toh i) × IsSignedHex 64 16 j (i8toh j)
unfolding i4toh i8toh
texts-IsSignedHex i j h k =
    let a = signed_four i h in
    let b = signed_eight j k in
    (
      IsHex-IsSignedHex 32 8 (word 32 i) i (i4toh i) a.1 (ui4toh-IsHex (word 32 i) a.0),
      IsHex-IsSignedHex 64 16 (word 64 j) j (i8toh j) b.1 (ui8toh-IsHex (word 64 j) b.0),
    )
