-- ===== src/Decimal/Reverse.antt =====
-- The loop that turns the digits around, in kinclude/kci_string.h.
use nihao_github_io.Base.{
  ℕ, zero, suc, ◌+◌, ◌-◌, ◌≤◌, ◌<◌, ◌≡◌, ◌≢◌, refl, ap, ◌∙◌, ◌⊎◌, inl, inr, ltb, ltb→lt, if_rule,
  arith,
}
use nihao_github_io.Decimal.{set_byte, swap_ends}

pub set_byte_here : (m : ℕ → ℕ) (p c i : ℕ) → i ≡ p → set_byte m p c i ≡ c
unfolding set_byte
set_byte_here m p c i e = ground (arith, e)

pub set_byte_else : (m : ℕ → ℕ) (p c i : ℕ) → i ≢ p → set_byte m p c i ≡ m i
unfolding set_byte
set_byte_else m p c i e = ground (arith, e)

-- Outside of the two ends nothing changes.
pub swap_ends_outside :
    (fuel : ℕ) (m : ℕ → ℕ) (b e i : ℕ) → (i < b) ⊎ (e < i) → swap_ends fuel m b e i ≡ m i
unfolding swap_ends
swap_ends_outside zero m b e i h = refl
swap_ends_outside (suc fuel) m b e i h =
    let swapped = set_byte (set_byte m b (m e)) e (m b) in
    if_rule (λ (r : ℕ → ℕ). r i ≡ m i) (ltb b e) (swap_ends fuel swapped (b + 1) (e - 1)) m
      (λ lt.
        swap_ends_outside fuel swapped (b + 1) (e - 1) i (omega (arith, h, ltb→lt b e lt))
        ∙ set_byte_else (set_byte m b (m e)) e (m b) i (omega (arith, h, ltb→lt b e lt))
        ∙ set_byte_else m b (m e) i (omega (arith, h, ltb→lt b e lt)))
      (λ _. refl)

-- The two ends, or what is between them.
ends_or_between :
    (b e i : ℕ) → b ≤ i → i ≤ e → b < e → (i ≡ b) ⊎ ((i ≡ e) ⊎ ((b + 1 ≤ i) × (i ≤ e - 1)))
ends_or_between b e i h h' lt = omega arith

-- Between them each byte is the one from the other side.
pub swap_ends_inside :
    (fuel : ℕ) (m : ℕ → ℕ) (b e i : ℕ)
    → e ≤ b + fuel
    → b ≤ i
    → i ≤ e
    → swap_ends fuel m b e i ≡ m (b + e - i)
unfolding swap_ends
swap_ends_inside zero m b e i h lo hi = ap m (omega arith)
swap_ends_inside (suc fuel) m b e i h lo hi =
    let swapped = set_byte (set_byte m b (m e)) e (m b) in
    if_rule (λ (r : ℕ → ℕ). r i ≡ m (b + e - i)) (ltb b e) (swap_ends fuel swapped (b + 1) (e - 1))
      m
      (λ t.
        let lt = ltb→lt b e t in
        elim (ends_or_between b e i lo hi lt) [
          | inl first ↦
              swap_ends_outside fuel swapped (b + 1) (e - 1) i (omega (arith, first))
              ∙ set_byte_else (set_byte m b (m e)) e (m b) i (omega (arith, first, lt))
              ∙ set_byte_here m b (m e) i first
              ∙ ap m (omega (arith, first, lt))
          | inr (inl last) ↦
              swap_ends_outside fuel swapped (b + 1) (e - 1) i (omega (arith, last, lt))
              ∙ set_byte_here (set_byte m b (m e)) e (m b) i last
              ∙ ap m (omega (arith, last, lt))
          | inr (inr (lo', hi')) ↦
              swap_ends_inside fuel swapped (b + 1) (e - 1) i (omega (arith, h, lt)) lo' hi'
              ∙ set_byte_else (set_byte m b (m e)) e (m b) (b + 1 + (e - 1) - i)
                  (omega (arith, lo', hi', lt))
              ∙ set_byte_else m b (m e) (b + 1 + (e - 1) - i) (omega (arith, lo', hi', lt))
              ∙ ap m (omega (arith, lo', hi', lt))
        ])
      (λ t. ap m (ground (arith, t, lo, hi)))
