-- ===== src/Decimal.antt =====
-- The decimal writers of kinclude/kci_string.h: `i4toa`, `ui4toa` and `i8toa`. Memory is a function
-- from addresses to bytes.
pub mod Reverse
pub mod Digits
pub mod Texts
mod Tests
use nihao_github_io.Base.{
  ℕ, zero, suc, ◌+◌, ◌-◌, ◌/◌, ◌%◌, Bool, true, false, ltb, ◌==◌, if◌then◌else◌,
}
use nihao_github_io.Base.Int.{ℤ, pos, negsuc}

unfoldable pub set_byte : (ℕ → ℕ) → ℕ → ℕ → ℕ → ℕ
set_byte m p c i = if i == p then c else m i

-- `do { *p_e++ = '0' + (char)(i % 10); i /= 10; } while (i);`, the end and the memory.
unfoldable pub write_digits : ℕ → (ℕ → ℕ) → ℕ → ℕ → ℕ × (ℕ → ℕ)
unfolding set_byte
write_digits zero m p i = (p, m)
write_digits (suc fuel) m p i =
    let m' = set_byte m p (b'0' + i % 10) in
    let rest = write_digits fuel m' (p + 1) (i / 10) in if i / 10 == 0 then (p + 1, m') else rest

-- `while (p_e>p_b) …`
unfoldable pub swap_ends : ℕ → (ℕ → ℕ) → ℕ → ℕ → ℕ → ℕ
unfolding set_byte
swap_ends zero m b e = m
swap_ends (suc fuel) m b e =
    let rest = swap_ends fuel (set_byte (set_byte m b (m e)) e (m b)) (b + 1) (e - 1) in
    if ltb b e then rest else m

-- Behind the digits: the zero, and the digits turned around.
unfoldable pub turn : ℕ → ℕ × (ℕ → ℕ) → ℕ → ℕ
unfolding set_byte swap_ends
turn b (e, m) = swap_ends (e - b) (set_byte m e 0) b (e - 1)

unfoldable pub put_number : (ℕ → ℕ) → ℕ → ℕ → ℕ → ℕ
unfolding turn write_digits
put_number m b i = turn b (write_digits (i + 1) m b i)

unfoldable pub ui4toa : ℕ → (ℕ → ℕ) → ℕ → ℕ → ℕ
unfolding put_number
ui4toa i m b = put_number m b i

-- A negative number is divided as it is, and its remainders are taken from '0'.
unfoldable pub i4toa : ℤ → (ℕ → ℕ) → ℕ → ℕ → ℕ
unfolding put_number set_byte
i4toa (pos n) m b = put_number m b n
i4toa (negsuc n) m b = put_number (set_byte m b b'-') (b + 1) (suc n)

unfoldable pub i8toa : ℤ → (ℕ → ℕ) → ℕ → ℕ → ℕ
unfolding put_number set_byte
i8toa (pos n) m b = put_number m b n
i8toa (negsuc n) m b = put_number (set_byte m b b'-') (b + 1) (suc n)
