-- ===== src/Calendar/Times.antt =====
-- Round trips of time stamps, the days of the week, and the ranges of the results.
use nihao_github_io.Base.{
  ℕ, ◌+◌, ◌-◌, ◌%◌, ◌^◌, ◌≤◌, ◌<◌, ◌≡◌, ap, ◌∙◌, Option, none, some, Bool-cases, if_rule, ltb, inl,
  inr, arith,
}
use nihao_github_io.Base.Int.{ℤ, pos, negsuc, sub_ℕ, ◌*ℤ◌, ◌+ℤ◌, pos_part, neg_part, ltb_ℤ}
use nihao_github_io.Calendar.{
  DateTime, fit_int, is_rn, gregorian_days, tm2date, date2tm, tm2dt, dt2tm, stamp, row_tm, fill,
  julian_tm, gregorian_tm, julian_split, gregorian_split,
}
use nihao_github_io.Calendar.Numbers.{shift-some}
use nihao_github_io.Calendar.Reform.{IsAfterReform}
use nihao_github_io.Calendar.RoundTrip.{
  IsDate, weekday, at_midnight, gregorian_number, gregorian_read,
}
use nihao_github_io.Calendar.Stamps.{stamp_of, tm2dt-tm2date, with_time, dt2tm-date2tm}

-- A time of day.
pub record IsTime (t : DateTime) : Type 0 where
  pub second : t.s < 86400
  pub micro : t.us < 1000000

stamp-fits :
    (n : ℤ) (s us : ℕ)
    → s < 86400
    → us < 1000000
    → pos_part n ≤ 65855788
    → stamp s us (some n) ≡ some (stamp_of n s us)
unfolding stamp ◌+ℤ◌ ◌*ℤ◌
stamp-fits (pos n) s us hs hus max = ground arith
stamp-fits (negsuc n) s us hs hus max = ground arith

-- What the round trip of a date gives for its stamps.
stamp_trip :
    (t : DateTime) (n : ℤ)
    → IsTime t
    → pos_part n ≤ 65855788
    → tm2date t ≡ some n
    → date2tm n ≡ some (at_midnight t (weekday n))
    → (tm2dt t ≡ some (stamp_of n t.s t.us))
      × (dt2tm (stamp_of n t.s t.us) ≡ some (record t { wday = weekday n }))
stamp_trip t n h max e f = (
  tm2dt-tm2date t ∙ ap (stamp t.s t.us) e ∙ stamp-fits n t.s t.us h.second h.micro max,
  dt2tm-date2tm n t.s t.us h.second h.micro max ∙ ap (with_time t.s t.us) f,
)

gregorian_days_few : (y : ℕ) → y ≤ 292000 → gregorian_days y + 366 ≤ 106751990
unfolding gregorian_days
gregorian_days_few y h = omega arith

-- A date and time from 1582-10-15 on to the end of the year 182000 survives the way through its
-- time stamp; only the day of the week is filled in.
pub dt2tm-tm2dt_gregorian :
    (t : DateTime) (y : ℕ)
    → IsDate is_rn t y
    → IsAfterReform y t.month t.mday
    → IsTime t
    → y ≤ 292000
    → (n : ℤ) × (tm2dt t ≡ some (stamp_of n t.s t.us))
      × (dt2tm (stamp_of n t.s t.us) ≡ some (record t { wday = weekday n }))
dt2tm-tm2dt_gregorian t y v after h max =
    let (p, late, e) = gregorian_number t y v after (omega arith) in
    let n = sub_ℕ (gregorian_days y + p.place) 40896202 in
    let few : pos_part n ≤ 65855788 = ground (arith, late, p.within, gregorian_days_few y max) in
    let (a, b) = stamp_trip t n h few e (gregorian_read t y v p late (omega arith)) in (n, a, b)

row_tm-wday :
    (y w s us : ℕ) (o : Option (ℕ × ℕ)) (t : DateTime) → row_tm y w s us o ≡ some t → t.wday ≡ w
unfolding row_tm
row_tm-wday y w s us none t e = cc
row_tm-wday y w s us (some (m, day)) t e = ground arith

fill-wday : (yd : ℕ × ℕ) (w s us : ℕ) (t : DateTime) → fill yd w s us ≡ some t → t.wday ≡ w
unfolding fill
fill-wday (y, d) w s us t e = row_tm-wday y w s us _ t e

julian_tm-wday : (d : ℕ) (t : DateTime) → julian_tm (some d) 0 0 ≡ some t → t.wday ≡ (d - 1) % 7
unfolding julian_tm
julian_tm-wday d t e = ground (arith, fill-wday (julian_split d) ((d - 1) % 7) 0 0 t)

gregorian_tm-wday : (d : ℕ) (t : DateTime) → gregorian_tm (some d) 0 0 ≡ some t → t.wday ≡ d % 7
unfolding gregorian_tm
gregorian_tm-wday d t e = ground (arith, fill-wday (gregorian_split d) (d % 7) 0 0 t)

gregorian_none-wday : (d : ℕ) (t : DateTime) → gregorian_tm none 0 0 ≡ some t → t.wday ≡ d % 7
unfolding gregorian_tm
gregorian_none-wday d t e = cc

fit_int-wday :
    (d : ℕ) (t : DateTime) → gregorian_tm (fit_int (2 ^ 31) (some d)) 0 0 ≡ some t → t.wday ≡ d % 7
unfolding fit_int
fit_int-wday d t =
    if_rule (λ o. gregorian_tm o 0 0 ≡ some t → t.wday ≡ d % 7) (ltb d (2 ^ 31)) (some d) none
      (λ h. gregorian_tm-wday d t) (λ h. gregorian_none-wday d t)

-- The day of the week depends on the day number alone, in both calendars.
date2tm-wday :
    (n : ℤ) (t : DateTime) → neg_part n ≤ 40896202 → date2tm n ≡ some t → t.wday ≡ weekday n
unfolding date2tm
date2tm-wday n t h e = elim (Bool-cases (ltb_ℤ n (negsuc 141426))) [
  | inl early ↦ omega (
    arith,
    julian_tm-wday (pos_part n + 40897029 - neg_part n) t
        (rw (early, shift-some 40897029 n (omega arith)) at e),
  )
  | inr late ↦
      fit_int-wday (pos_part n + 40896202 - neg_part n) t (rw (late, shift-some 40896202 n h) at e)
]

neg_part-suc : (n : ℤ) → neg_part (n +ℤ pos 1) ≤ neg_part n
unfolding ◌+ℤ◌
neg_part-suc (pos n) = ground arith
neg_part-suc (negsuc n) = ground arith

weekday-suc : (n : ℤ) → neg_part n ≤ 40896202 → weekday (n +ℤ pos 1) ≡ (weekday n + 1) % 7
unfolding ◌+ℤ◌
weekday-suc (pos n) h = ground arith
weekday-suc (negsuc n) h = ground arith

-- Wherever `date2tm` reads two consecutive day numbers from -40896202 on, the days of the week
-- are consecutive too: in either calendar, across the reform, and in the missed century years.
wday-date2tm :
    (n : ℤ) (t u : DateTime)
    → neg_part n ≤ 40896202
    → date2tm n ≡ some t
    → date2tm (n +ℤ pos 1) ≡ some u
    → u.wday ≡ (t.wday + 1) % 7
wday-date2tm n t u h e f = omega (
  arith,
  date2tm-wday n t h e,
  date2tm-wday (n +ℤ pos 1) u (omega (arith, neg_part-suc n)) f,
  weekday-suc n h,
)
