-- ===== src/Calendar/Stamps.antt =====
-- Time stamps: a day number, a second of the day and a microsecond.
use nihao_github_io.Base.{
  ℕ, ◌+◌, ◌-◌, ◌*◌, ◌/◌, ◌%◌, ◌^◌, ◌≤◌, ◌<◌, ◌≡◌, refl, ap, ◌∙◌, true, Option, none, some, inl, inr,
  Bool-cases, arith,
}
use native.Mathlib.Decide.{dec_lt}
use nihao_github_io.Calendar.Numbers.{
  shift-sub_ℕ, fit_int-some, shift-none, ltb_ℤ-sub_ℕ, ltb_ℤ-sub_ℕ_ge, ltb_ℤ→lt, ltb_ℤ→ge,
  parts-sub_ℕ, whole_parts, no_pos_part, reform_shift,
}
use nihao_github_io.Base.Int.{ℤ, pos, negsuc, sub_ℕ, ltb_ℤ, ◌+ℤ◌, ◌*ℤ◌, pos_part, neg_part}
use nihao_github_io.Calendar.{
  DateTime, tm2date, tm2dt, date2tm, dt2tm, stamp, stamp_tm, julian_tm, gregorian_tm, fill, row_tm,
  julian_split, gregorian_split,
}

-- Microseconds since the epoch.
abbrev pub stamp_of : ℤ → ℕ → ℕ → ℤ
stamp_of n s us = (n *ℤ pos 86400 +ℤ pos s) *ℤ pos 1000000 +ℤ pos us

-- `tm2dt` is `tm2date` with the time of day.
pub tm2dt-tm2date : (t : DateTime) → tm2dt t ≡ stamp t.s t.us (tm2date t)
unfolding tm2dt tm2date
tm2dt-tm2date t = ground arith

abbrev pub with_time : ℕ → ℕ → Option DateTime → Option DateTime
with_time s us none = none
with_time s us (some t) = some (record t { s = s; us = us })

row_tm-with_time :
    (y w s us : ℕ) (o : Option (ℕ × ℕ)) → row_tm y w s us o ≡ with_time s us (row_tm y w 0 0 o)
unfolding row_tm
row_tm-with_time y w s us none = refl
row_tm-with_time y w s us (some (m, day)) = refl

fill-with_time : (yd : ℕ × ℕ) (w s us : ℕ) → fill yd w s us ≡ with_time s us (fill yd w 0 0)
unfolding fill
fill-with_time (y, d) w s us = row_tm-with_time y w s us _

julian_tm-with_time :
    (o : Option ℕ) (s us : ℕ) → julian_tm o s us ≡ with_time s us (julian_tm o 0 0)
unfolding julian_tm
julian_tm-with_time none s us = refl
julian_tm-with_time (some d) s us =
    ground (arith, fill-with_time (julian_split d) ((d - 1) % 7) s us)

gregorian_tm-with_time :
    (o : Option ℕ) (s us : ℕ) → gregorian_tm o s us ≡ with_time s us (gregorian_tm o 0 0)
unfolding gregorian_tm
gregorian_tm-with_time none s us = refl
gregorian_tm-with_time (some d) s us =
    ground (arith, fill-with_time (gregorian_split d) (d % 7) s us)

-- A stamp, shifted by a whole number of days.
stamp_of-sub_ℕ :
    (d k s us : ℕ)
    → s < 86400
    → us < 1000000
    → stamp_of (sub_ℕ d k) s us ≡ sub_ℕ ((d * 86400 + s) * 1000000 + us) (k * 86400000000)
unfolding ◌+ℤ◌ ◌*ℤ◌
stamp_of-sub_ℕ d k s us hs hus = ground arith

module _ (d s us : ℕ) (hs : s < 86400) (hus : us < 1000000) where
  stamp_tm_lem :
      (tm : Option ℕ → ℕ → ℕ → Option DateTime)
      → stamp_tm tm (some ((d * 86400 + s) * 1000000 + us)) ≡ tm (some d) s us
  unfolding stamp_tm
  stamp_tm_lem tm = rw (micro, second, day)
    where
      t : ℕ
      t = (d * 86400 + s) * 1000000 + us

      micro : t % 1000000 ≡ us
      micro = omega arith

      second : t / 1000000 % 86400 ≡ s
      second = omega arith

      day : t / 1000000 / 86400 ≡ d
      day = omega arith

  abbrev Agree : ℤ → Type 0
  Agree n = dt2tm (stamp_of n s us) ≡ with_time s us (date2tm n)

  Agree-after : 40754775 ≤ d → d ≤ 106751990 → Agree (sub_ℕ d 40896202)
  unfolding dt2tm date2tm
  Agree-after late max =
      rw
        (
          stamp_of-sub_ℕ d 40896202 s us hs hus,
          ltb_ℤ-sub_ℕ_ge ((d * 86400 + s) * 1000000 + us) 3533431852800000000 12219292799999999
              (omega arith),
          shift-sub_ℕ ((d * 86400 + s) * 1000000 + us) 3533431852800000000,
          fit_int-some (2 ^ 63) ((d * 86400 + s) * 1000000 + us) (omega arith),
          stamp_tm_lem gregorian_tm,
          ltb_ℤ-sub_ℕ_ge d 40896202 141426 (omega arith),
          shift-sub_ℕ d 40896202,
          fit_int-some (2 ^ 31) d (omega arith),
        )
        (gregorian_tm-with_time (some d) s us)

  Agree-before : d ≤ 40755601 → Agree (sub_ℕ d 40897029)
  unfolding dt2tm date2tm
  Agree-before early =
      rw
        (
          stamp_of-sub_ℕ d 40897029 s us hs hus,
          ltb_ℤ-sub_ℕ ((d * 86400 + s) * 1000000 + us) 3533503305600000000 12219292799999999
              (omega arith),
          shift-sub_ℕ ((d * 86400 + s) * 1000000 + us) 3533503305600000000,
          stamp_tm_lem julian_tm,
          ltb_ℤ-sub_ℕ d 40897029 141426 (omega arith),
          shift-sub_ℕ d 40897029,
        )
        (julian_tm-with_time (some d) s us)

-- A day before the shifted calendar, for both functions.
agree_outside :
    (n : ℤ) (s us : ℕ)
    → s < 86400
    → us < 1000000
    → 40897029 < neg_part n
    → dt2tm (stamp_of n s us) ≡ with_time s us (date2tm n)
unfolding dt2tm date2tm
agree_outside n s us hs hus h =
    rw
      (
        whole,
        ltb_ℤ-sub_ℕ (s * 1000000 + us) (neg_part n * 86400000000) 12219292799999999 (omega arith),
        shift-none 3533503305600000000 (sub_ℕ (s * 1000000 + us) (neg_part n * 86400000000))
            (ground arith),
        below,
        shift-none 40897029 n h,
      )
      refl
  where
    whole : stamp_of n s us ≡ sub_ℕ (s * 1000000 + us) (neg_part n * 86400000000)
    whole =
        let e : n ≡ sub_ℕ 0 (neg_part n) =
          whole_parts n ∙ ap (λ (x : ℕ). sub_ℕ x (neg_part n)) (no_pos_part n (omega arith)) in
        ap (λ (m : ℤ). stamp_of m s us) e
        ∙ stamp_of-sub_ℕ 0 (neg_part n) s us hs hus
        ∙ ap (λ (x : ℕ). sub_ℕ x (neg_part n * 86400000000)) (omega arith)

    below : ltb_ℤ n (negsuc 141426) ≡ true
    below = ground (arith, no_pos_part n (omega arith))

-- For a stamp of a day, a second of the day and a microsecond, `dt2tm` is `date2tm` on the day,
-- with that time of day, up to the day 65855788, the last one whose stamps `dt2tm` can shift in 64
-- bits.
pub dt2tm-date2tm :
    (n : ℤ) (s us : ℕ)
    → s < 86400
    → us < 1000000
    → pos_part n ≤ 65855788
    → dt2tm (stamp_of n s us) ≡ with_time s us (date2tm n)
dt2tm-date2tm n s us hs hus max = elim (Bool-cases (ltb_ℤ n (negsuc 141426))) [
  | inr late ↦
      let (low, least) = reform_shift n (ltb_ℤ→ge n 141426 late) in
      rw (← parts-sub_ℕ n 40896202 low) at
        (Agree-after (pos_part n + 40896202 - neg_part n) s us hs hus least (omega arith))
  | inl early ↦ elim (dec_lt 40897029 (neg_part n)) [
    | yes outside ↦ agree_outside n s us hs hus outside
    | no inside ↦ rw (← parts-sub_ℕ n 40897029 (omega arith)) at (
        Agree-before (pos_part n + 40897029 - neg_part n) s us hs hus (
          omega (
            arith,
            ltb_ℤ→lt n 141426 early,
            no_pos_part n (omega (arith, ltb_ℤ→lt n 141426 early)),
          )))
  ]
]
