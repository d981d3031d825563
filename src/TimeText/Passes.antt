-- ===== src/TimeText/Passes.antt =====
-- How often `str2tm` of ksources/utl_time.cpp jumps back to `retry`: once, or for ever.
use nihao_github_io.Base.{
  ℕ, zero, suc, ◌+◌, ◌≤◌, ◌≡◌, ◌≢◌, refl, sym, ap, ◌∙◌, Bool, true, false, not, ◌&&◌, ◌||◌, Option,
  none, some, List, leb, if_rule, length, arith,
}
use nihao_github_io.Base.Int.{ℤ, pos}
use nihao_github_io.Calendar.{DateTime}
use nihao_github_io.TimeText.Scan.{Fields, fresh, skip_blanks}
use nihao_github_io.TimeText.Parse.{
  Tokens, ended, era, no_table, no_fuel, read_tokens, read_zone, Pass, done, refused, again,
  past_table, overflown, stuck, abs, in_range, fit_ints, day_in_month, store, check, no_era,
  with_era, era_year, chk_bc_ad, finish, pass, retry_with, passes, scale_or, format_or, str2tm,
}

-- Whether a pass goes back to `retry` does not depend on `have_tz`.
abbrev GoesBack : (Bool → Pass) → Type 0
GoesBack p = (have_tz : Bool) → (have_tz' : Bool) × (p have_tz ≡ again have_tz')

check-done :
    (tm : DateTime) (y : ℤ) (f : Fields) (have_tz : Bool) (t_z : ℤ) (h : Bool)
    → check tm y f have_tz t_z ≢ again h
unfolding check
check-done tm y f have_tz t_z h =
    if_rule (λ p. p ≢ again h) (not (fit_ints f)) overflown _ (λ _ e. cc)
      (λ _.
        if_rule (λ p. p ≢ again h) (leb (abs t_z) 1440 && (in_range y f && day_in_month y f))
          (done (store tm y f have_tz t_z)) refused (λ _ e. cc) (λ _ e. cc))

abbrev no_year : Option ℤ
no_year = none

pub with_era-GoesBack :
    (tm : DateTime) (f : Fields) (have_tz h : Bool) (t_z : ℤ) (o : Option ℤ)
    → with_era tm f have_tz t_z o ≡ again h
    → (f.y2_as_y4 ≡ true) × (o ≡ none)
unfolding with_era no_era
with_era-GoesBack tm f have_tz h t_z none =
    if_rule (λ p. p ≡ again h → (f.y2_as_y4 ≡ true) × (no_year ≡ no_year)) f.y2_as_y4
      (again have_tz) refused (λ b e. (b, refl)) (λ b e. cc)
with_era-GoesBack tm f have_tz h t_z (some y) = λ e. absurd (check-done tm y f have_tz t_z h e)

with_era_again :
    (tm : DateTime) (f : Fields) (have_tz : Bool) (t_z : ℤ) (o : Option ℤ)
    → (f.y2_as_y4 ≡ true) × (o ≡ none)
    → with_era tm f have_tz t_z o ≡ again have_tz
unfolding with_era no_era
with_era_again tm f have_tz t_z o (b, e) = rw (e, b)

finish-GoesBack :
    (tm : DateTime) (have_tz h : Bool) (ts : Tokens)
    → finish tm have_tz ts ≡ again h
    → GoesBack (λ have_tz. finish tm have_tz ts)
unfolding finish chk_bc_ad
finish-GoesBack tm have_tz h (ended f str) e have =
    let z = read_zone (skip_blanks str) in
    let o = era_year f.y (skip_blanks z.behind) in
    (
      have || z.have_tz,
      with_era_again tm f (have || z.have_tz) z.t_z o
          (with_era-GoesBack tm f (have_tz || z.have_tz) h z.t_z o e),
    )
finish-GoesBack tm have_tz h (era f str) e have =
    let o = era_year f.y (skip_blanks str) in
    (have, with_era_again tm f have (pos 0) o (with_era-GoesBack tm f have_tz h (pos 0) o e))
finish-GoesBack tm have_tz h no_table e have = cc
finish-GoesBack tm have_tz h no_fuel e have = cc

pass-GoesBack :
    (this_year scale : ℕ) (tm : DateTime) (str fmt : List ℕ) (flag have_tz h : Bool)
    → pass this_year scale tm str fmt flag have_tz ≡ again h
    → GoesBack (pass this_year scale tm str fmt flag)
unfolding pass
pass-GoesBack this_year scale tm str fmt flag have_tz h e =
    finish-GoesBack tm have_tz h
      (read_tokens this_year scale (length fmt + 1) (skip_blanks str) fmt (fresh flag)) e

passes_endless :
    (this_year scale fuel : ℕ) (tm : DateTime) (str fmt : List ℕ) (have_tz : Bool)
    → GoesBack (pass this_year scale tm str fmt true)
    → passes this_year scale fuel tm str fmt true have_tz ≡ stuck
unfolding passes retry_with
passes_endless this_year scale zero tm str fmt have_tz back = refl
passes_endless this_year scale (suc fuel) tm str fmt have_tz back =
    let (h, e) = back have_tz in
    ap (retry_with (passes this_year scale fuel tm str fmt true)) e
    ∙ passes_endless this_year scale fuel tm str fmt h back

-- The passes from the second on, by how the second ends.
second_pass :
    (this_year scale n : ℕ) (tm : DateTime) (str fmt : List ℕ) (have_tz : Bool) (p : Pass)
    → pass this_year scale tm str fmt true have_tz ≡ p
    → passes this_year scale (suc n) tm str fmt true have_tz
      ≡ passes this_year scale 1 tm str fmt true have_tz
unfolding passes retry_with
second_pass this_year scale n tm str fmt have_tz (done r) e = rw e
second_pass this_year scale n tm str fmt have_tz refused e = rw e
second_pass this_year scale n tm str fmt have_tz (again h) e =
    let back = pass-GoesBack this_year scale tm str fmt true have_tz h e in
    passes_endless this_year scale (suc n) tm str fmt have_tz back
    ∙ sym (passes_endless this_year scale 1 tm str fmt have_tz back)
second_pass this_year scale n tm str fmt have_tz past_table e = rw e
second_pass this_year scale n tm str fmt have_tz overflown e = rw e
second_pass this_year scale n tm str fmt have_tz stuck e = rw e

first_pass :
    (this_year scale n : ℕ) (tm : DateTime) (str fmt : List ℕ) (flag have_tz : Bool) (p : Pass)
    → pass this_year scale tm str fmt flag have_tz ≡ p
    → passes this_year scale (suc (suc n)) tm str fmt flag have_tz
      ≡ passes this_year scale 2 tm str fmt flag have_tz
unfolding passes retry_with
first_pass this_year scale n tm str fmt flag have_tz (done r) e = rw e
first_pass this_year scale n tm str fmt flag have_tz refused e = rw e
first_pass this_year scale n tm str fmt flag have_tz (again h) e =
    let go =
      second_pass this_year scale n tm str fmt h (pass this_year scale tm str fmt true h) refl in
    rw (e, go)
first_pass this_year scale n tm str fmt flag have_tz past_table e = rw e
first_pass this_year scale n tm str fmt flag have_tz overflown e = rw e
first_pass this_year scale n tm str fmt flag have_tz stuck e = rw e

-- Two passes decide `str2tm`: with any more it ends as with two, so a text that sends it back
-- to `retry` twice sends it back for ever.
pub str2tm_two_passes :
    (this_year n : ℕ) (str fmt : List ℕ) (scale : ℤ) (tm : DateTime)
    → 2 ≤ n
    → str2tm this_year n str fmt scale tm ≡ str2tm this_year 2 str fmt scale tm
unfolding str2tm
str2tm_two_passes this_year zero str fmt scale tm h = absurd (omega arith)
str2tm_two_passes this_year (suc zero) str fmt scale tm h = absurd (omega arith)
str2tm_two_passes this_year (suc (suc n)) str fmt scale tm h =
    first_pass this_year (scale_or scale) n tm str (format_or fmt) false false
      (pass this_year (scale_or scale) tm str (format_or fmt) false false) refl
