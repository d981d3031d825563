-- ===== src/Calendar/Reform.antt =====
-- The two calendars meet at 1582-10-15, day -141427, in the shifted year 111582.
use nihao_github_io.Base.{ℕ, ◌+◌, ◌≤◌, ◌<◌, ◌≡◌, refl, ◌⊎◌, inl, inr, true, false, arith}
use native.Mathlib.Decide.{dec_lt}
use nihao_github_io.Base.Int.{sub_ℕ}
use nihao_github_io.Calendar.{DateTime, is_rn, julian_days, gregorian_days, is_julian}
use nihao_github_io.Calendar.Years.{julian_leap}
use nihao_github_io.Calendar.Months.{IsMonthDay, Place, october, month_len}

-- On or after 1582-10-15, by year, month and day.
abbrev pub IsAfterReform : ℕ → ℕ → ℕ → Type 0
IsAfterReform y m day = (111582 < y) ⊎ ((y ≡ 111582) × ((10 < m) ⊎ ((m ≡ 10) × (15 ≤ day))))

-- Before 1582-10-05.
abbrev pub IsBeforeReform : ℕ → ℕ → ℕ → Type 0
IsBeforeReform y m day = (y < 111582) ⊎ ((y ≡ 111582) × ((m < 10) ⊎ ((m ≡ 10) × (day < 5))))

pub is_julian-IsAfterReform :
    (t : DateTime) (y : ℕ)
    → t.year ≡ sub_ℕ y 110000
    → IsAfterReform y t.month t.mday
    → is_julian t ≡ false
unfolding is_julian
is_julian-IsAfterReform t y e h = rw e (ground arith)

pub is_julian-IsBeforeReform :
    (t : DateTime) (y : ℕ)
    → t.year ≡ sub_ℕ y 110000
    → IsBeforeReform y t.month t.mday
    → is_julian t ≡ true
unfolding is_julian
is_julian-IsBeforeReform t y e h = rw e (ground arith)

gregorian_days_late : (y : ℕ) → 111583 ≤ y → 40754775 ≤ gregorian_days y
unfolding gregorian_days
gregorian_days_late y h = omega arith

julian_days_early : (y : ℕ) → y < 111582 → julian_days y + 366 ≤ 40755601
unfolding julian_days
julian_days_early y h = omega arith

gregorian_reform_year : (y : ℕ) → y ≡ 111582 → (is_rn y ≡ false) × (gregorian_days y ≡ 40754488)
unfolding is_rn gregorian_days
gregorian_reform_year y e = (rw e refl, rw e refl)

julian_reform_year : (y : ℕ) → y ≡ 111582 → (julian_leap y ≡ false) × (julian_days y ≡ 40755325)
unfolding julian_days
julian_reform_year y e = (rw e refl, rw e refl)

-- The first Gregorian day and the last Julian one.
pub gregorian_after :
    (y m day : ℕ) (p : Place (is_rn y) m day)
    → m ≤ 12
    → IsAfterReform y m day
    → 40754775 ≤ gregorian_days y + p.place
gregorian_after y m day p h (inl late) = omega (arith, gregorian_days_late y late)
gregorian_after y m day p h (inr (e, q)) =
    let (common, days) = gregorian_reform_year y e in
    let o = october m p.before h (rw common at p.month) in
    elim q [
      | inl later ↦ omega (arith, days, p.sum, o.from_november later)
      | inr (is10, mid) ↦ omega (arith, days, p.sum, o.october_itself is10)
    ]

pub julian_before :
    (y m day : ℕ) (p : Place (julian_leap y) m day)
    → IsMonthDay (julian_leap y) m day
    → IsBeforeReform y m day
    → julian_days y + p.place ≤ 40755601
julian_before y m day p v (inl soon) = ground (arith, julian_days_early y soon, p.within)
julian_before y m day p v (inr (e, q)) =
    let (common, days) = julian_reform_year y e in
    let o = october m p.before v.month_le (rw common at p.month) in
    let len : day ≤ month_len false m = rw common at v.day_le in
    elim q [
      | inl sooner ↦ omega (arith, days, p.sum, len, o.early (omega arith))
      | inr (is10, mid) ↦ omega (arith, days, p.sum, o.october_itself is10)
    ]

gregorian_days_early : (y : ℕ) → y < 111582 → gregorian_days y + 366 < 40754775
unfolding gregorian_days
gregorian_days_early y h = omega arith

julian_days_late : (y : ℕ) → 111583 ≤ y → 40755601 < julian_days y
unfolding julian_days
julian_days_late y h = omega arith

-- The converses: the day number shows on which side of the reform the date lies.
pub after_gregorian :
    (y m day : ℕ) (p : Place (is_rn y) m day)
    → IsMonthDay (is_rn y) m day
    → 40754775 ≤ gregorian_days y + p.place
    → IsAfterReform y m day
after_gregorian y m day p v h = elim (dec_lt y 111582) [
  | yes q ↦ absurd (ground (arith, gregorian_days_early y q, p.within))
  | no q ↦ elim (dec_lt 111582 y) [
    | yes q' ↦ inl q'
    | no q' ↦
        let e : y ≡ 111582 = omega arith in
        let (common, days) = gregorian_reform_year y e in
        let o = october m p.before v.month_le (rw common at p.month) in
        let len : day ≤ month_len false m = rw common at v.day_le in
        elim (dec_lt m 10) [
          | yes r ↦ absurd (omega (arith, days, p.sum, len, o.early (omega arith)))
          | no r ↦ elim (dec_lt 10 m) [
            | yes r' ↦ inr (e, inl r')
            | no r' ↦
                let m10 : m ≡ 10 = omega arith in
                inr (e, inr (m10, omega (arith, days, p.sum, o.october_itself m10)))
          ]
        ]
  ]
]

pub before_julian :
    (y m day : ℕ) (p : Place (julian_leap y) m day)
    → IsMonthDay (julian_leap y) m day
    → julian_days y + p.place ≤ 40755601
    → IsBeforeReform y m day
before_julian y m day p v h = elim (dec_lt y 111582) [
  | yes q ↦ inl q
  | no q ↦ elim (dec_lt 111582 y) [
    | yes q' ↦ absurd (omega (arith, julian_days_late y q'))
    | no q' ↦
        let e : y ≡ 111582 = omega arith in
        let (common, days) = julian_reform_year y e in
        let o = october m p.before v.month_le (rw common at p.month) in
        elim (dec_lt m 10) [
          | yes r ↦ inr (e, inl r)
          | no r ↦ elim (dec_lt 10 m) [
            | yes r' ↦ absurd (omega (arith, days, p.sum, v.day_pos, o.from_november r'))
            | no r' ↦
                let m10 : m ≡ 10 = omega arith in
                inr (e, inr (m10, omega (arith, days, p.sum, o.october_itself m10)))
          ]
        ]
  ]
]
