-- ===== src/Sql/Ctype.antt =====
-- Characters, and `astrnicmp` of kinclude/kci_string.h. A byte is a number below 256; `char` is
-- signed there, so bytes are compared after a shift by half the range.
use nihao_github_io.Base.{
  ℕ, zero, suc, ◌+◌, ◌-◌, Bool, ◌&&◌, ◌||◌, List, [], ◌∷◌, ltb, leb, ◌==◌, if◌then◌else◌,
}

-- `isspace` and `isalnum` of the C locale.
unfoldable pub is_space : ℕ → Bool
is_space c = (leb 9 c && leb c 13) || (c == 32)

unfoldable pub is_alnum : ℕ → Bool
is_alnum c =
    (leb b'0' c && leb c b'9') || ((leb b'A' c && leb c b'Z') || (leb b'a' c && leb c b'z'))

-- `if (ch >= 'a' && ch <= 'z') ch -= 0x20;`
unfoldable pub upper : ℕ → ℕ
upper c = if leb b'a' c && leb c b'z' then c - 32 else c

unfoldable pub signed_key : ℕ → ℕ
signed_key c = if ltb c 128 then c + 128 else c - 128

-- The results -1, 0 and 1.
pub data Sign : Type 0 where
  less same more : Sign

unfoldable pub ending : ℕ → ℕ → Sign
ending c1 c2 = if c1 == 0 then (if c2 == 0 then same else less) else more

-- Compares up to `n` bytes, without regard to case.
unfoldable pub astrnicmp : (ℕ → ℕ) → List ℕ → ℕ → Sign
unfolding upper signed_key ending
astrnicmp s t zero = same
astrnicmp s [] (suc n) = ending (s 0) 0
astrnicmp s (c ∷ cs) (suc n) =
    let rest = astrnicmp (λ i. s (suc i)) cs n in
    if (s 0 == 0) || (c == 0)
    then ending (s 0) c
    else if ltb (signed_key (upper c)) (signed_key (upper (s 0)))
    then more
    else if ltb (signed_key (upper (s 0))) (signed_key (upper c))
    then less
    else rest
