-- ===== src/Base/Maps.antt =====
-- Functions from numbers, as memory and as maps, changed at one place.
use nihao_github_io.Base.{ℕ, ◌≡◌, ◌≢◌, refl, true, false, ◌==◌, if◌then◌else◌, arith}

unfoldable pub put {ℓ} : {A : Type ℓ} → (ℕ → A) → ℕ → A → ℕ → A
put f i v j = if j == i then v else f j

pub put_same {ℓ} : {A : Type ℓ} (f : ℕ → A) (i j : ℕ) (v : A) → j ≡ i → put f i v j ≡ v
unfolding put
put_same f i j v e = rw (yes_same j i e) refl
  where
    yes_same : (j i : ℕ) → j ≡ i → (j == i) ≡ true
    yes_same j i e = ground (arith, e)

pub put_other {ℓ} : {A : Type ℓ} (f : ℕ → A) (i j : ℕ) (v : A) → j ≢ i → put f i v j ≡ f j
unfolding put
put_other f i j v e = rw (not_same j i e) refl
  where
    not_same : (j i : ℕ) → j ≢ i → (j == i) ≡ false
    not_same j i e = ground (arith, e)
