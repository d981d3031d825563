-- ===== src/Calendar/Years.antt =====
-- The year of a shifted day number, for either rule of leap years.
use nihao_github_io.Base.{
  ℕ, suc, ◌+◌, ◌-◌, ◌%◌, ◌≤◌, ◌<◌, ◌≡◌, refl, ◌⊎◌, inl, inr, Bool, ◌==◌, if◌then◌else◌, arith,
}
use native.Mathlib.Nat.{le_refl, le_trans}
use native.Mathlib.Decide.{le_ind, dec_lt}
use nihao_github_io.Calendar.{
  is_rn, julian_days, gregorian_days, julian_guess, gregorian_guess, carry_year, julian_split,
  gregorian_split,
}

abbrev pub year_len : Bool → ℕ
year_len rn = if rn then 366 else 365

-- Day `r` of year `y` is day `d` of the calendar.
pub record IsDayOf (days : ℕ → ℕ) (leap : ℕ → Bool) (d y r : ℕ) : Type 0 where
  pub year_pos : 1 ≤ y
  pub number : days y + r ≡ d
  pub within : r < year_len (leap y)

year_len-le : (b : Bool) → (365 ≤ year_len b) × (year_len b ≤ 366)
year_len-le b = ground arith

module _ (days : ℕ → ℕ) (leap : ℕ → Bool)
    (step : (y : ℕ) → 1 ≤ y → days (suc y) ≡ days y + year_len (leap y)) where
  days_mono : (i j : ℕ) → 1 ≤ i → i ≤ j → days i ≤ days j
  days_mono i j h =
      le_ind (λ m. days i ≤ days m) (le_refl _) (λ m le ih. omega (arith, step m (le_trans h le))) j

  -- A guess with the day less than 376 days ahead is off by one year at most.
  pub guess_lem :
      (g d y r : ℕ)
      → 1 ≤ g
      → days g ≤ d
      → d < days g + 376
      → IsDayOf days leap d y r
      → (g ≡ y) ⊎ (suc g ≡ y)
  guess_lem g d y r hg lo hi v = elim (dec_lt y g) [
    | yes p ↦ absurd (omega (arith, step y v.year_pos, days_mono (suc y) g (omega arith) p))
    | no p ↦ elim (dec_lt (suc g) y) [
      | yes q ↦ absurd (
          omega (
            arith,
            step g hg,
            step (suc g) (omega arith),
            year_len-le (leap g),
            year_len-le (leap (suc g)),
            days_mono (suc (suc g)) y (omega arith) q,
          ))
      | no q ↦ omega arith
    ]
  ]

  -- Every day belongs to a year.
  pub day_exists :
      (g d : ℕ)
      → 1 ≤ g
      → days g ≤ d
      → d < days g + 376
      → (y : ℕ) × (r : ℕ) × IsDayOf days leap d y r
  day_exists g d hg lo hi = elim (dec_lt (d - days g) (year_len (leap g))) [
    | yes p ↦ (g, d - days g, record { year_pos = hg; number = omega arith; within = p })
    | no p ↦ (
      suc g,
      d - days (suc g),
      record {
        year_pos = omega arith;
        number = omega (arith, step g hg, year_len-le (leap g));
        within = omega (arith, step g hg, year_len-le (leap g), year_len-le (leap (suc g)));
      },
    )
  ]

  -- Where the macro agrees with the calendar's rule, `carry_year` reaches the year of the day.
  pub carry_year_lem :
      (g d y r : ℕ)
      → 1 ≤ g
      → days g ≤ d
      → d < days g + 376
      → IsDayOf days leap d y r
      → is_rn g ≡ leap g
      → carry_year (g, d - days g) ≡ (y, r)
  unfolding carry_year
  carry_year_lem g d y r hg lo hi v agree =
      ground (arith, guess_lem g d y r hg lo hi v, step g hg, v.number, v.within)

pub gregorian_days-suc :
    (y : ℕ) → 1 ≤ y → gregorian_days (suc y) ≡ gregorian_days y + year_len (is_rn y)
unfolding gregorian_days is_rn
gregorian_days-suc y h = ground arith

abbrev pub julian_leap : ℕ → Bool
julian_leap y = y % 4 == 0

pub julian_days-suc :
    (y : ℕ) → 1 ≤ y → julian_days (suc y) ≡ julian_days y + year_len (julian_leap y)
unfolding julian_days
julian_days-suc y h = ground arith

-- The guess is the year, or the year before it in the first ten days.
pub gregorian_guess_bounds :
    (d : ℕ)
    → 376 ≤ d
    → (1 ≤ gregorian_guess d)
      × (gregorian_days (gregorian_guess d) ≤ d)
      × (d < gregorian_days (gregorian_guess d) + 376)
unfolding gregorian_days gregorian_guess
gregorian_guess_bounds d h = omega arith

pub julian_guess_bounds :
    (d : ℕ)
    → 376 ≤ d
    → (1 ≤ julian_guess d)
      × (julian_days (julian_guess d) ≤ d)
      × (d < julian_days (julian_guess d) + 376)
unfolding julian_days julian_guess
julian_guess_bounds d h = omega arith

abbrev pub IsGregorianDay : ℕ → ℕ → ℕ → Type 0
IsGregorianDay = IsDayOf gregorian_days is_rn

abbrev pub IsJulianDay : ℕ → ℕ → ℕ → Type 0
IsJulianDay = IsDayOf julian_days julian_leap

pub gregorian_split_lem : (d y r : ℕ) → 376 ≤ d → IsGregorianDay d y r → gregorian_split d ≡ (y, r)
unfolding gregorian_split
gregorian_split_lem d y r h v =
    let (a, b, c) = gregorian_guess_bounds d h in
    carry_year_lem gregorian_days is_rn gregorian_days-suc (gregorian_guess d) d y r a b c v refl

-- The macro agrees with the Julian rule at `y` and at the year before.
pub record IsPlain (y : ℕ) : Type 0 where
  pub this : is_rn y ≡ julian_leap y
  pub last : is_rn (y - 1) ≡ julian_leap (y - 1)

pub julian_split_lem :
    (d y r : ℕ) → 376 ≤ d → IsJulianDay d y r → IsPlain y → julian_split d ≡ (y, r)
unfolding julian_split
julian_split_lem d y r h v p =
    let (a, b, c) = julian_guess_bounds d h in
    let g = julian_guess d in
    carry_year_lem julian_days julian_leap julian_days-suc g d y r a b c v
      (agree (guess_lem julian_days julian_leap julian_days-suc g d y r a b c v))
  where
    agree :
        (julian_guess d ≡ y) ⊎ (suc (julian_guess d) ≡ y)
        → is_rn (julian_guess d) ≡ julian_leap (julian_guess d)
    agree (inl e) = rw e p.this
    agree (inr e) = let e' : julian_guess d ≡ y - 1 = omega arith in rw e' p.last
