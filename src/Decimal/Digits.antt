-- ===== src/Decimal/Digits.antt =====
-- The loop that writes the digits, in kinclude/kci_string.h.
use nihao_github_io.Base.{
  ℕ, zero, suc, ◌+◌, ◌/◌, ◌%◌, ◌≤◌, ◌<◌, ◌≡◌, ◌≢◌, refl, sym, ap, ◌∙◌, ◌==◌, if_rule, arith,
}
use nihao_github_io.Decimal.{set_byte, write_digits}
use nihao_github_io.Decimal.Reverse.{set_byte_here, set_byte_else}

-- A number without its last `k` digits.
unfoldable pub quot : ℕ → ℕ → ℕ
quot i zero = i
quot i (suc k) = quot i k / 10

quot_shift : (i k : ℕ) → quot (i / 10) k ≡ quot i (suc k)
unfolding quot
quot_shift i zero = refl
quot_shift i (suc k) = ap (λ q. q / 10) (quot_shift i k)

-- The digits in memory, from the last.
pub record IsReversed (m : ℕ → ℕ) (p i : ℕ) (r : ℕ × (ℕ → ℕ)) : Type 0 where
  pub n : ℕ
  pub some_digit : 1 ≤ n
  pub end : r.0 ≡ p + n
  pub digit : (k : ℕ) → k < n → r.1 (p + k) ≡ 48 + quot i k % 10
  pub all : quot i n ≡ 0
  pub first : (k : ℕ) → n ≡ suc (suc k) → quot i (suc k) ≢ 0
  pub below : (x : ℕ) → x < p → r.1 x ≡ m x
  pub above : (x : ℕ) → p + n ≤ x → r.1 x ≡ m x

one_digit :
    (m : ℕ → ℕ) (p i : ℕ) → i / 10 ≡ 0 → IsReversed m p i (p + 1, set_byte m p (48 + i % 10))
unfolding quot
one_digit m p i h = record {
  n = 1;
  some_digit = omega arith;
  end = refl;
  digit = only;
  all = h;
  first = λ k e. absurd (omega (arith, e));
  below = λ x lt. set_byte_else m p (48 + i % 10) x (omega (arith, lt));
  above = λ x le. set_byte_else m p (48 + i % 10) x (omega (arith, le));
}
  where
    only : (k : ℕ) → k < 1 → set_byte m p (48 + i % 10) (p + k) ≡ 48 + quot i k % 10
    only zero lt = set_byte_here m p (48 + i % 10) (p + 0) (omega arith)
    only (suc k) lt = absurd (omega (arith, lt))

more_digits :
    (m : ℕ → ℕ) (p i : ℕ) (r : ℕ × (ℕ → ℕ))
    → i / 10 ≢ 0
    → IsReversed (set_byte m p (48 + i % 10)) (p + 1) (i / 10) r
    → IsReversed m p i r
more_digits m p i r h v = record {
  n = suc v.n;
  some_digit = omega arith;
  end = omega (arith, v.end);
  digit = digits;
  all = sym (quot_shift i v.n) ∙ v.all;
  first = firsts;
  below =
      λ x lt. v.below x (omega (arith, lt)) ∙ set_byte_else m p (48 + i % 10) x (omega (arith, lt));
  above =
      λ x le. v.above x (omega (arith, le)) ∙ set_byte_else m p (48 + i % 10) x (omega (arith, le));
}
  where
    digits : (k : ℕ) → k < suc v.n → r.1 (p + k) ≡ 48 + quot i k % 10
    digits zero lt =
        ap r.1 (omega arith)
        ∙ v.below p (omega arith)
        ∙ set_byte_here m p (48 + i % 10) p refl
        ∙ unfold quot in refl
    digits (suc k) lt =
        ap r.1 (omega arith)
        ∙ v.digit k (omega (arith, lt))
        ∙ ap (λ q. 48 + q % 10) (quot_shift i k)

    firsts : (k : ℕ) → suc v.n ≡ suc (suc k) → quot i (suc k) ≢ 0
    firsts zero e z = h (unfold quot in z)
    firsts (suc k) e z = v.first k (omega (arith, e)) (quot_shift i (suc k) ∙ z)

pub write_digits-IsReversed :
    (fuel : ℕ) (m : ℕ → ℕ) (p i : ℕ) → i < fuel → IsReversed m p i (write_digits fuel m p i)
unfolding write_digits
write_digits-IsReversed zero m p i h = absurd (omega (arith, h))
write_digits-IsReversed (suc fuel) m p i h =
    let m' = set_byte m p (48 + i % 10) in
    if_rule (IsReversed m p i) (i / 10 == 0) (p + 1, m') (write_digits fuel m' (p + 1) (i / 10))
      (λ t. one_digit m p i (ground (arith, t)))
      (λ t.
        let more : i / 10 ≢ 0 = ground (arith, t) in
        more_digits m p i (write_digits fuel m' (p + 1) (i / 10)) more
          (write_digits-IsReversed fuel m' (p + 1) (i / 10) (omega (arith, h, more))))
