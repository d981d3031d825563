-- ===== src/TimeText/Fields.antt =====
-- What `tm2str` of ksources/utl_time.cpp writes for one token, and how `str2tm` reads it.
use nihao_github_io.Base.{
  ℕ, zero, suc, ◌+◌, ◌/◌, ◌%◌, ◌≤◌, ◌<◌, ◌≡◌, refl, sym, subst, ◌⊎◌, inl, inr, Bool, true, false,
  not, some, List, [], ◌∷◌, ◌++◌, ◌==◌, if◌then◌else◌, arith,
}
use nihao_github_io.Base.Int.{pos}
use nihao_github_io.Calendar.{DateTime}
use nihao_github_io.TimeText.Scan.{
  Fields, fraction, read_token, read_y4, read_mm, read_dd, read_hh, read_mi, read_ss, set_y,
}
use nihao_github_io.TimeText.Print.{
  padded, write_token, write_time, time_piece, era_piece, year_text, year4,
}
use nihao_github_io.TimeText.Digits.{number-padded2, number-padded4}
use nihao_github_io.TimeText.Layout.{is_part, seen_in}

-- A date and time whose numbers fit their places.
pub record Fits (dt : DateTime) (y : ℕ) : Type 0 where
  pub year_is : dt.year ≡ pos y
  pub year_pos : 1 ≤ y
  pub year_lt : y < 10000
  pub month_lt : dt.month < 100
  pub mday_lt : dt.mday < 100
  pub s_lt : dt.s < 86400

unfoldable pub part : DateTime → ℕ → ℕ → List ℕ
part dt y k =
    if k == 25
    then padded 4 y
    else if k == 12
    then padded 2 dt.month
    else if k == 6
    then padded 2 dt.mday
    else if k == 10
    then padded 2 (dt.s / 60 / 60)
    else if k == 11
    then padded 2 (dt.s / 60 % 60)
    else padded 2 (dt.s % 60)

-- The variables of a pass behind some tokens.
unfoldable pub fields_at : DateTime → ℕ → List ℕ → Fields
unfolding seen_in
fields_at dt y seen = record {
  y = if seen_in 25 seen then y else 0;
  m = if seen_in 12 seen then dt.month else 1;
  d = if seen_in 6 seen then dt.mday else 1;
  h = if seen_in 10 seen then dt.s / 60 / 60 else 0;
  mi = if seen_in 11 seen then dt.s / 60 % 60 else 0;
  s = if seen_in 16 seen then dt.s % 60 else 0;
  us = 0;
  y2_as_y4 = false;
}

pub part_cases :
    (k : ℕ)
    → is_part k ≡ true
    → (k ≡ 25) ⊎ ((k ≡ 12) ⊎ ((k ≡ 6) ⊎ ((k ≡ 10) ⊎ ((k ≡ 11) ⊎ (k ≡ 16)))))
unfolding is_part
part_cases k h = ground arith

-- One of the six tokens.
pub data Part : ℕ → Type 0 where
  year4_part : Part 25
  month_part : Part 12
  day_part : Part 6
  hour_part : Part 10
  minute_part : Part 11
  second_part : Part 16

pub is_part-Part : (k : ℕ) → is_part k ≡ true → Part k
is_part-Part k h = elim (part_cases k h) [
  | inl e ↦ subst Part (sym e) year4_part
  | inr (inl e) ↦ subst Part (sym e) month_part
  | inr (inr (inl e)) ↦ subst Part (sym e) day_part
  | inr (inr (inr (inl e))) ↦ subst Part (sym e) hour_part
  | inr (inr (inr (inr (inl e)))) ↦ subst Part (sym e) minute_part
  | inr (inr (inr (inr (inr e)))) ↦ subst Part (sym e) second_part
]

year_text_pos : (y : ℕ) → 1 ≤ y → year_text (pos y) ≡ (y, false)
unfolding year_text
year_text_pos zero h = absurd (omega arith)
year_text_pos (suc y) h = refl

add_zero : (n : ℕ) → n + 0 ≡ n
add_zero n = omega arith

pub write_token-part :
    (float_text : ℕ → ℕ → ℕ → List ℕ) (dt : DateTime) (y k : ℕ) (at : List ℕ)
    → Fits dt y
    → Part k
    → write_token float_text dt k at false ≡ some (part dt y k, false)
unfolding write_token write_time time_piece era_piece year_text year4 part
write_token-part float_text dt y k at v year4_part = rw (v.year_is, year_text_pos y v.year_pos)
write_token-part float_text dt y k at v month_part = refl
write_token-part float_text dt y k at v day_part = refl
write_token-part float_text dt y k at v hour_part = refl
write_token-part float_text dt y k at v minute_part = refl
write_token-part float_text dt y k at v second_part = refl

-- No point stands at the front.
unfoldable pub no_point_text : List ℕ → Bool
no_point_text [] = true
no_point_text (c ∷ cs) = not (c == b'.')

fraction-no_point :
    (scale us : ℕ) (rest : List ℕ) → no_point_text rest ≡ true → fraction scale us rest ≡ (us, rest)
unfolding fraction no_point_text
fraction-no_point scale us [] h = refl
fraction-no_point scale us (c ∷ cs) h = ground arith

pub read_token-part :
    (this_year scale : ℕ) (dt : DateTime) (y k : ℕ) (seen rest : List ℕ)
    → Fits dt y
    → Part k
    → seen_in k seen ≡ false
    → no_point_text rest ≡ true
    → read_token this_year scale k (fields_at dt y seen) (part dt y k ++ rest)
      ≡ (fields_at dt y (k ∷ seen), rest)
unfolding read_token read_y4 read_mm read_dd read_hh read_mi read_ss set_y part fields_at seen_in
read_token-part this_year scale dt y k seen rest v year4_part new point =
    rw (new, number-padded4 y rest v.year_lt, add_zero y)
read_token-part this_year scale dt y k seen rest v month_part new point =
    rw (number-padded2 dt.month rest v.month_lt)
read_token-part this_year scale dt y k seen rest v day_part new point =
    rw (number-padded2 dt.mday rest v.mday_lt)
read_token-part this_year scale dt y k seen rest v hour_part new point =
    rw (new, number-padded2 (dt.s / 60 / 60) rest (omega (arith, v.s_lt)))
read_token-part this_year scale dt y k seen rest v minute_part new point =
    rw (new, number-padded2 (dt.s / 60 % 60) rest (omega arith))
read_token-part this_year scale dt y k seen rest v second_part new point =
    rw (new, number-padded2 (dt.s % 60) rest (omega arith), fraction-no_point scale 0 rest point)
