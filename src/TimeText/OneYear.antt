-- ===== src/TimeText/OneYear.antt =====
-- With one two-digit year in the format, `str2tm` of ksources/utl_time.cpp returns.
use nihao_github_io.Base.{
  ℕ, zero, suc, ◌+◌, ◌≤◌, ◌≡◌, ◌≢◌, refl, sym, subst, ◌∙◌, Bool, true, false, ◌||◌, List, [], ◌∷◌,
  ◌==◌, if◌then◌else◌, inl, inr, if_rule, Bool-cases, length, arith,
}
use nihao_github_io.Base.Int.{ℤ, pos}
use nihao_github_io.Calendar.{DateTime}
use nihao_github_io.TimeText.{Lexed, token, word, stop, out_of_table, next_tfmt}
use nihao_github_io.TimeText.Scan.{
  Fields, Read, fresh, skip_blanks, skip_to_digit, set_y, read_y2, read_y3, read_y4, read_mm,
  read_dd, read_hh, read_mi, read_ss, read_token, at_era,
}
use nihao_github_io.TimeText.Parse.{
  Tokens, ended, era, no_table, no_fuel, read_one, read_tokens, read_zone, era_year, chk_bc_ad,
  Pass, done, refused, again, past_table, overflown, stuck, finish, pass, retry_with, passes,
  scale_or, format_or, str2tm,
}
use nihao_github_io.TimeText.Passes.{with_era-GoesBack, str2tm_two_passes}
use nihao_github_io.TimeText.Retry.{pass_decides}

-- The two-digit years among the first `n` tokens of a format.
unfoldable pub and_more : (List ℕ → ℕ) → Lexed → ℕ
and_more go stop = 0
and_more go out_of_table = 0
and_more go (token k rest) = (if k == 23 then 1 else 0) + go rest
and_more go (word w rest) = go rest

unfoldable pub year2s : ℕ → List ℕ → ℕ
unfolding and_more
year2s zero fmt = 0
year2s (suc n) fmt = and_more (year2s n) (next_tfmt fmt)

-- The flag `y2_as_y4` where the tokens end.
abbrev pub EndsWith : Bool → Tokens → Type 0
EndsWith b (ended f str) = f.y2_as_y4 ≡ b
EndsWith b (era f str) = f.y2_as_y4 ≡ b
EndsWith b no_table = ⊥
EndsWith b no_fuel = ⊥

abbrev pub flagged : Bool → Fields → Fields
flagged b f = record f { y2_as_y4 = b }

-- No other token reads or sets the flag.
other_token_lem :
    (this_year scale k : ℕ) (b : Bool) (f : Fields) (str : List ℕ)
    → (k == 23) ≡ false
    → let r = read_token this_year scale k f str in
      (read_token this_year scale k (flagged b f) str ≡ (flagged b r.0, r.1))
      × (r.0.y2_as_y4 ≡ f.y2_as_y4)
unfolding read_token read_y3 read_y4 read_mm read_dd read_hh read_mi read_ss set_y
other_token_lem this_year scale k b f str h = ground arith

-- Without a two-digit year the flag stays.
abbrev KeepsFlag : (List ℕ → ℕ) → (List ℕ → List ℕ → Fields → Tokens) → Type 0
KeepsFlag count go =
    (str fmt : List ℕ) (f : Fields) (b : Bool)
    → count fmt ≡ 0
    → EndsWith b (go str fmt f)
    → f.y2_as_y4 ≡ b

read_one-KeepsFlag :
    (this_year scale : ℕ) (count : List ℕ → ℕ) (go : List ℕ → List ℕ → Fields → Tokens)
    (str : List ℕ) (f : Fields) (b : Bool) (r : Lexed)
    → KeepsFlag count go
    → and_more count r ≡ 0
    → EndsWith b (read_one this_year scale go str f r)
    → f.y2_as_y4 ≡ b
unfolding read_one and_more
read_one-KeepsFlag this_year scale count go str f b stop keep none_of e = e
read_one-KeepsFlag this_year scale count go str f b out_of_table keep none_of e = absurd e
read_one-KeepsFlag this_year scale count go str f b (token k rest) keep none_of e =
    let r = read_token this_year scale k f str in
    let other : (k == 23) ≡ false = ground arith in
    sym (other_token_lem this_year scale k b f str other).1 ∙ keep r.1 rest r.0 b (ground arith) e
read_one-KeepsFlag this_year scale count go str f b (word w rest) keep none_of e =
    if_rule (λ t. EndsWith b t → f.y2_as_y4 ≡ b) (at_era (skip_blanks str))
      (era f (skip_blanks str)) (go (skip_to_digit (skip_blanks str)) rest f) (λ _ e. e)
      (λ _ e. keep (skip_to_digit (skip_blanks str)) rest f b none_of e) e

read_tokens-KeepsFlag :
    (this_year scale n : ℕ) → KeepsFlag (year2s n) (read_tokens this_year scale n)
unfolding read_tokens year2s
read_tokens-KeepsFlag this_year scale n [] fmt f b none_of e = e
read_tokens-KeepsFlag this_year scale zero (c ∷ cs) fmt f b none_of e = absurd e
read_tokens-KeepsFlag this_year scale (suc n) (c ∷ cs) fmt f b none_of e =
    read_one-KeepsFlag this_year scale (year2s n) (read_tokens this_year scale n) (c ∷ cs) f b
      (next_tfmt fmt) (read_tokens-KeepsFlag this_year scale n) none_of e

-- With one of them it is turned over, so a pass that starts with the flag does not end with it.
abbrev TurnsFlag : (List ℕ → ℕ) → (List ℕ → List ℕ → Fields → Tokens) → Type 0
TurnsFlag count go =
    (str fmt : List ℕ) (f : Fields)
    → count fmt ≤ 1
    → f.y2_as_y4 ≡ false
    → EndsWith true (go str fmt f)
    → EndsWith true (go str fmt (flagged true f))
    → ⊥

not_both : {b : Bool} → b ≡ true → b ≡ false → ⊥
not_both e e' = cc

no_era_both :
    (b : Bool) (f : Fields) (str : List ℕ) (t t' : Tokens)
    → f.y2_as_y4 ≡ false
    → (EndsWith true t → EndsWith true t' → ⊥)
    → EndsWith true (if b then era f str else t)
    → EndsWith true (if b then era (flagged true f) str else t')
    → ⊥
no_era_both true f str t t' off no_more e e' = not_both e off
no_era_both false f str t t' off no_more e e' = no_more e e'

-- The two-digit year of a second pass resets the flag.
read_token_y2 :
    (this_year scale k : ℕ) (f : Fields) (str : List ℕ)
    → (k == 23) ≡ true
    → (read_token this_year scale k (flagged true f) str).0.y2_as_y4 ≡ false
unfolding read_token read_y2 set_y
read_token_y2 this_year scale k f str h = rw h refl

read_one-TurnsFlag :
    (this_year scale : ℕ) (count : List ℕ → ℕ) (go : List ℕ → List ℕ → Fields → Tokens)
    (str : List ℕ) (f : Fields) (r : Lexed)
    → KeepsFlag count go
    → TurnsFlag count go
    → and_more count r ≤ 1
    → f.y2_as_y4 ≡ false
    → EndsWith true (read_one this_year scale go str f r)
    → EndsWith true (read_one this_year scale go str (flagged true f) r)
    → ⊥
unfolding read_one and_more
read_one-TurnsFlag this_year scale count go str f stop keep turn one off e e' = not_both e off
read_one-TurnsFlag this_year scale count go str f out_of_table keep turn one off e e' = e
read_one-TurnsFlag this_year scale count go str f (token k rest) keep turn one off e e' =
    let r = read_token this_year scale k f str in
    let r' = read_token this_year scale k (flagged true f) str in
    elim (Bool-cases (k == 23)) [
      | inl y ↦
          let none_of : count rest ≡ 0 = ground arith in
          not_both (keep r'.1 rest r'.0 true none_of e') (read_token_y2 this_year scale k f str y)
      | inr other ↦
          let (same, still) = other_token_lem this_year scale k true f str other in
          turn r.1 rest r.0 (ground arith) (still ∙ off) e
            (subst (λ (q : Read). EndsWith true (go q.1 rest q.0)) same e')
    ]
read_one-TurnsFlag this_year scale count go str f (word w rest) keep turn one off e e' =
    let str' = skip_to_digit (skip_blanks str) in
    no_era_both (at_era (skip_blanks str)) f (skip_blanks str) (go str' rest f)
      (go str' rest (flagged true f)) off (turn str' rest f one off) e e'

read_tokens-TurnsFlag :
    (this_year scale n : ℕ) → TurnsFlag (year2s n) (read_tokens this_year scale n)
unfolding read_tokens year2s
read_tokens-TurnsFlag this_year scale n [] fmt f one off e e' = not_both e off
read_tokens-TurnsFlag this_year scale zero (c ∷ cs) fmt f one off e e' = e
read_tokens-TurnsFlag this_year scale (suc n) (c ∷ cs) fmt f one off e e' =
    read_one-TurnsFlag this_year scale (year2s n) (read_tokens this_year scale n) (c ∷ cs) f
      (next_tfmt fmt) (read_tokens-KeepsFlag this_year scale n)
      (read_tokens-TurnsFlag this_year scale n) one off e e'

-- Back to `retry` only with the flag.
finish-EndsWith :
    (tm : DateTime) (have_tz h : Bool) (ts : Tokens)
    → finish tm have_tz ts ≡ again h
    → EndsWith true ts
unfolding finish chk_bc_ad
finish-EndsWith tm have_tz h (ended f str) e =
    let z = read_zone (skip_blanks str) in
    (with_era-GoesBack tm f (have_tz || z.have_tz) h z.t_z (era_year f.y (skip_blanks z.behind))
      e).0
finish-EndsWith tm have_tz h (era f str) e =
    (with_era-GoesBack tm f have_tz h (pos 0) (era_year f.y (skip_blanks str)) e).0
finish-EndsWith tm have_tz h no_table e = cc
finish-EndsWith tm have_tz h no_fuel e = cc

second-refuses :
    (this_year scale : ℕ) (tm : DateTime) (str fmt : List ℕ) (h h' : Bool)
    → year2s (length fmt + 1) fmt ≤ 1
    → pass this_year scale tm str fmt false false ≡ again h
    → pass this_year scale tm str fmt true h ≢ again h'
unfolding pass fresh
second-refuses this_year scale tm str fmt h h' one e e' =
    let read = read_tokens this_year scale (length fmt + 1) (skip_blanks str) fmt in
    read_tokens-TurnsFlag this_year scale (length fmt + 1) (skip_blanks str) fmt (fresh false) one
      refl (finish-EndsWith tm false h (read (fresh false)) e)
      (finish-EndsWith tm h h' (read (fresh true)) e')

last_pass :
    (this_year scale : ℕ) (tm : DateTime) (str fmt : List ℕ) (h : Bool) (p : Pass)
    → ((h' : Bool) → p ≢ again h')
    → p ≢ stuck
    → retry_with (passes this_year scale 0 tm str fmt true) p ≢ stuck
unfolding retry_with
last_pass this_year scale tm str fmt h (done r) once ends e = cc
last_pass this_year scale tm str fmt h refused once ends e = cc
last_pass this_year scale tm str fmt h (again h') once ends e = once h' refl
last_pass this_year scale tm str fmt h past_table once ends e = cc
last_pass this_year scale tm str fmt h overflown once ends e = cc
last_pass this_year scale tm str fmt h stuck once ends e = ends refl

both_passes :
    (this_year scale : ℕ) (tm : DateTime) (str fmt : List ℕ) (p : Pass)
    → year2s (length fmt + 1) fmt ≤ 1
    → pass this_year scale tm str fmt false false ≡ p
    → retry_with (passes this_year scale 1 tm str fmt true) p ≢ stuck
unfolding retry_with passes
both_passes this_year scale tm str fmt (done r) one same e = cc
both_passes this_year scale tm str fmt refused one same e = cc
both_passes this_year scale tm str fmt (again h) one same e =
    last_pass this_year scale tm str fmt h (pass this_year scale tm str fmt true h)
      (λ h'. second-refuses this_year scale tm str fmt h h' one same)
      (pass_decides this_year scale tm str fmt true h) e
both_passes this_year scale tm str fmt past_table one same e = cc
both_passes this_year scale tm str fmt overflown one same e = cc
both_passes this_year scale tm str fmt stuck one same e =
    pass_decides this_year scale tm str fmt false false same

two_return :
    (this_year : ℕ) (str fmt : List ℕ) (scale : ℤ) (tm : DateTime)
    → year2s (length (format_or fmt) + 1) (format_or fmt) ≤ 1
    → str2tm this_year 2 str fmt scale tm ≢ stuck
unfolding str2tm passes
two_return this_year str fmt scale tm one =
    both_passes this_year (scale_or scale) tm str (format_or fmt)
      (pass this_year (scale_or scale) tm str (format_or fmt) false false) one refl

-- With at most one two-digit year in the format `str2tm` returns: the loop over the tokens ends
-- and the second pass, if there is one, is the last.
pub str2tm_returns :
    (this_year n : ℕ) (str fmt : List ℕ) (scale : ℤ) (tm : DateTime)
    → 2 ≤ n
    → year2s (length (format_or fmt) + 1) (format_or fmt) ≤ 1
    → str2tm this_year n str fmt scale tm ≢ stuck
str2tm_returns this_year n str fmt scale tm h one e =
    two_return this_year str fmt scale tm one
      (sym (str2tm_two_passes this_year n str fmt scale tm h) ∙ e)
