-- ===== src/Decimal/Texts.antt =====
-- The texts that the decimal writers of kinclude/kci_string.h leave in memory.
use nihao_github_io.Base.{
  ℕ, zero, suc, ◌+◌, ◌-◌, ◌*◌, ◌/◌, ◌%◌, ◌≤◌, ◌<◌, ◌≡◌, ◌≢◌, refl, sym, ap, ◌∙◌, ◌⊎◌, inl, inr,
  arith,
}
use nihao_github_io.Base.Int.{ℤ, pos, negsuc}
use nihao_github_io.Decimal.{set_byte, write_digits, turn, put_number, ui4toa, i4toa, i8toa}
use nihao_github_io.Decimal.Reverse.{
  set_byte_here, set_byte_else, swap_ends_outside, swap_ends_inside,
}
use nihao_github_io.Decimal.Digits.{quot, IsReversed, write_digits-IsReversed}

-- The value of the `n` digits from `b` on.
unfoldable pub value : (ℕ → ℕ) → ℕ → ℕ → ℕ
value m b zero = 0
value m b (suc n) = value m b n * 10 + (m (b + n) - 48)

-- The decimal text of `i` stands at `b`: digits with this value, without a zero in front but for 0
-- itself, and a zero byte behind them; the other bytes are those of `m`.
pub record IsDecimal (m : ℕ → ℕ) (b i : ℕ) (r : ℕ → ℕ) : Type 0 where
  pub n : ℕ
  pub some_digit : 1 ≤ n
  pub low : (j : ℕ) → j < n → 48 ≤ r (b + j)
  pub high : (j : ℕ) → j < n → r (b + j) ≤ 57
  pub value_is : value r b n ≡ i
  pub first : 2 ≤ n → r b ≢ 48
  pub ended : r (b + n) ≡ 0
  pub others : (x : ℕ) → (x < b) ⊎ (b + n < x) → r x ≡ m x

abbrev pub IsText : ℤ → (ℕ → ℕ) → ℕ → (ℕ → ℕ) → Type 0
IsText (pos i) m b r = IsDecimal m b i r
IsText (negsuc i) m b r = (r b ≡ b'-') × IsDecimal (set_byte m b b'-') (b + 1) (suc i) r

quot_next : (i k : ℕ) → quot i (suc k) ≡ quot i k / 10
unfolding quot
quot_next i k = refl

quot_zero : (i k : ℕ) → k ≡ 0 → quot i k ≡ i
unfolding quot
quot_zero i k e = ap (quot i) e

module _ (m : ℕ → ℕ) (b i e : ℕ) (w : ℕ → ℕ) (v : IsReversed m b i (e, w)) where
  turned : (j : ℕ) → j < v.n → turn b (e, w) (b + j) ≡ 48 + quot i (v.n - 1 - j) % 10
  unfolding turn
  turned j lt =
      swap_ends_inside (e - b) (set_byte w e 0) b (e - 1) (b + j) (omega (arith, v.end))
        (omega arith) (omega (arith, v.end, lt))
      ∙ set_byte_else w e 0 (b + (e - 1) - (b + j)) (omega (arith, v.end, lt))
      ∙ ap w (omega (arith, v.end, lt))
      ∙ v.digit (v.n - 1 - j) (omega (arith, lt))

  value_turned : (k : ℕ) → k ≤ v.n → value (turn b (e, w)) b k ≡ quot i (v.n - k)
  unfolding value
  value_turned zero le = sym (ap (quot i) (omega arith) ∙ v.all)
  value_turned (suc k) le =
      let before = value_turned k (omega (arith, le)) in
      let here = turned k (omega (arith, le)) in
      let more : quot i (v.n - k) ≡ quot i (v.n - 1 - k) / 10 =
        ap (quot i) (omega (arith, le)) ∙ quot_next i (v.n - 1 - k) in
      let same : quot i (v.n - suc k) ≡ quot i (v.n - 1 - k) = ap (quot i) (omega arith) in
      omega (arith, before, here, more, same)

  leading : 2 ≤ v.n → turn b (e, w) b ≢ 48
  leading two z =
      let k = v.n - 2 in
      let here : turn b (e, w) b ≡ 48 + quot i (suc k) % 10 =
        ap (turn b (e, w)) {x = b} {y = b + 0} (omega arith)
        ∙ turned 0 (omega (arith, two))
        ∙ ap (λ k. 48 + quot i k % 10) {x = v.n - 1 - 0} {y = suc k} (omega (arith, two)) in
      let last : quot i (suc k) / 10 ≡ 0 =
        sym (quot_next i (suc k))
        ∙ ap (quot i) {x = suc (suc k)} {y = v.n} (omega (arith, two))
        ∙ v.all in
      let some_first : quot i (suc k) ≢ 0 = v.first k (omega (arith, two)) in
      some_first (omega (arith, here, last, z))

  unwritten : (x : ℕ) → (x < b) ⊎ (b + v.n < x) → w x ≡ m x
  unwritten x (inl lt) = v.below x lt
  unwritten x (inr lt) = v.above x (omega (arith, lt))

  pub turn-IsDecimal : IsDecimal m b i (turn b (e, w))
  unfolding turn
  turn-IsDecimal = record {
    n = v.n;
    some_digit = v.some_digit;
    low = λ j lt. (let here = turned j lt in omega (arith, here));
    high = λ j lt. (let here = turned j lt in omega (arith, here));
    value_is = value_turned v.n (omega arith) ∙ quot_zero i (v.n - v.n) (omega arith);
    first = λ two z. leading two z;
    ended =
        swap_ends_outside (e - b) (set_byte w e 0) b (e - 1) (b + v.n)
          (omega (arith, v.end, v.some_digit))
        ∙ set_byte_here w e 0 (b + v.n) (omega (arith, v.end));
    others = λ x out.
        swap_ends_outside (e - b) (set_byte w e 0) b (e - 1) x
          (omega (arith, out, v.end, v.some_digit))
        ∙ set_byte_else w e 0 x (omega (arith, out, v.end, v.some_digit))
        ∙ unwritten x out;
  }

put_number-IsDecimal : (m : ℕ → ℕ) (b i : ℕ) → IsDecimal m b i (put_number m b i)
unfolding put_number
put_number-IsDecimal m b i =
    let r = write_digits (i + 1) m b i in
    turn-IsDecimal m b i r.0 r.1 (write_digits-IsReversed (i + 1) m b i (omega arith))

minus-IsText :
    (m : ℕ → ℕ) (b i : ℕ) → IsText (negsuc i) m b (put_number (set_byte m b b'-') (b + 1) (suc i))
minus-IsText m b i =
    let v = put_number-IsDecimal (set_byte m b b'-') (b + 1) (suc i) in
    (v.others b (omega arith) ∙ set_byte_here m b b'-' b refl, v)

-- `i4toa`, `i8toa` and `ui4toa`, which has no negative numbers, write the decimal text of a number:
-- for a negative one a minus sign and then the digits of its absolute value, without
-- a zero in front but for 0 itself, a zero byte behind them, and nothing else.
pub i4toa-IsText :
    (z : ℤ) (i : ℕ) (m : ℕ → ℕ) (b : ℕ)
    → IsText z m b (i4toa z m b) × IsText z m b (i8toa z m b) × IsText (pos i) m b (ui4toa i m b)
unfolding i4toa i8toa ui4toa
i4toa-IsText (pos n) i m b =
    (put_number-IsDecimal m b n, put_number-IsDecimal m b n, put_number-IsDecimal m b i)
i4toa-IsText (negsuc n) i m b = (minus-IsText m b n, minus-IsText m b n, put_number-IsDecimal m b i)
