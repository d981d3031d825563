-- ===== src/Net/Xor.antt =====
-- The exclusive or of the stream cipher: a key applied twice is gone.
use Prim.Native.Nat.{digits, differ, bit_xor, bit_xor-bitwise}
use nihao_github_io.Base.{ℕ, zero, suc, ◌+◌, ◌*◌, ◌/◌, ◌%◌, ◌≤◌, ◌<◌, ◌≡◌, refl, ◌∙◌, arith}

abbrev xor_digits : ℕ → ℕ → ℕ → ℕ
xor_digits fuel x key = digits (λ k. k) differ fuel x key

same_digits :
    (key x left right : ℕ) → x ≤ left → x ≤ right → xor_digits left x key ≡ xor_digits right x key
same_digits key zero zero zero h k = refl
same_digits key zero zero (suc right) h k = refl
same_digits key zero (suc left) zero h k = refl
same_digits key zero (suc left) (suc right) h k = refl
same_digits key (suc x) zero right h k = absurd (omega arith)
same_digits key (suc x) (suc left) zero h k = absurd (omega arith)
same_digits key (suc x) (suc left) (suc right) h k =
    let tail = same_digits (key / 2) (suc x / 2) left right (omega arith) (omega arith) in
    omega (arith, tail)

lowest : (x key : ℕ) → bit_xor x key ≡ bit_xor (x / 2) (key / 2) * 2 + differ (x % 2) (key % 2)
lowest zero key = omega (arith, bit_xor-bitwise 0 key, bit_xor-bitwise 0 (key / 2))
lowest (suc x) key =
    bit_xor-bitwise (suc x) key
    ∙ omega (
      arith,
      same_digits (key / 2) (suc x / 2) x (suc x / 2) (omega arith) (omega arith),
      bit_xor-bitwise (suc x / 2) (key / 2),
    )

differ_twice : (a b : ℕ) → a < 2 → b < 2 → (differ a b < 2) × (differ (differ a b) b ≡ a)
differ_twice zero zero h k = (omega arith, refl)
differ_twice zero (suc zero) h k = (omega arith, refl)
differ_twice (suc zero) zero h k = (omega arith, refl)
differ_twice (suc zero) (suc zero) h k = (omega arith, refl)
differ_twice (suc (suc a)) b h k = absurd (omega arith)
differ_twice zero (suc (suc b)) h k = absurd (omega arith)
differ_twice (suc zero) (suc (suc b)) h k = absurd (omega arith)

xor_twice_below : (n x key : ℕ) → x ≤ n → key ≤ n → bit_xor (bit_xor x key) key ≡ x
xor_twice_below zero x key h k =
    let x_is : x ≡ 0 = omega arith in let key_is : key ≡ 0 = omega arith in rw x_is (rw key_is refl)
xor_twice_below (suc n) x key h k =
    let (low, back) = differ_twice (x % 2) (key % 2) (omega arith) (omega arith) in
    let rest = xor_twice_below n (x / 2) (key / 2) (omega arith) (omega arith) in
    let half : bit_xor x key / 2 ≡ bit_xor (x / 2) (key / 2) = omega (arith, lowest x key, low) in
    let odd : bit_xor x key % 2 ≡ differ (x % 2) (key % 2) = omega (arith, lowest x key, low) in
    lowest (bit_xor x key) key ∙ rw half (rw odd (omega (arith, rest, back)))

pub xor_twice : (x key : ℕ) → bit_xor (bit_xor x key) key ≡ x
xor_twice x key = xor_twice_below (x + key) x key (omega arith) (omega arith)
