-- ===== src/TimeText/Retry.antt =====
-- The loops of `str2tm` of ksources/utl_time.cpp: the tokens of a format and the jumps to `retry`.
use nihao_github_io.Base.{
  ℕ, zero, suc, ◌+◌, ◌≤◌, ◌<◌, ◌≡◌, ◌≢◌, refl, Bool, true, not, ◌&&◌, ◌||◌, Option, none, some,
  List, [], ◌∷◌, ltb, leb, if_rule, length, arith,
}
use nihao_github_io.Base.Int.{ℤ, pos}
use nihao_github_io.Calendar.{DateTime}
use nihao_github_io.TimeText.{
  Lexed, token, word, stop, out_of_table, jmp_to, token_at, newer, scan_token, next_tfmt,
  is_separator, separators, short_word,
}
use nihao_github_io.TimeText.Scan.{Fields, fresh, skip_blanks, skip_to_digit, read_token, at_era}
use nihao_github_io.TimeText.Parse.{
  Tokens, ended, era, no_table, no_fuel, read_one, read_tokens, read_zone, done, refused, again,
  stuck, abs, in_range, fit_ints, overflown, day_in_month, store, check, no_era, with_era, era_year,
  chk_bc_ad, finish, pass,
}

-- A token leaves less than `n` bytes of the format.
abbrev pub LeavesLess : ℕ → Lexed → Type 0
LeavesLess n (token k rest) = length rest < n
LeavesLess n (word w rest) = length rest < n
LeavesLess n stop = Unit {0}
LeavesLess n out_of_table = Unit {0}

newer-LeavesLess :
    (n : ℕ) (o : Option ℕ) (cs : List ℕ) (found : Lexed)
    → length cs < n
    → LeavesLess n found
    → LeavesLess n (newer o cs found)
unfolding newer
newer-LeavesLess n none cs found h v = v
newer-LeavesLess n (some k) cs found h v = h

scan_token-LeavesLess :
    (n : ℕ) (cs : List ℕ) (s : ℕ) (found : Lexed)
    → length cs ≤ n
    → LeavesLess n found
    → LeavesLess n (scan_token cs s found)
unfolding scan_token
scan_token-LeavesLess n [] s found h v = v
scan_token-LeavesLess n (c ∷ cs) s found h v = by_jump (jmp_to s c) (λ t.
    scan_token-LeavesLess n cs t (newer (token_at t) cs found) (omega arith)
      (newer-LeavesLess n (token_at t) cs found (omega arith) v))
  where
    by_jump :
        (o : Option ℕ)
        → ((t : ℕ) → LeavesLess n (scan_token cs t (newer (token_at t) cs found)))
        → LeavesLess n (elim o [
          | none ↦ out_of_table
          | some zero ↦ found
          | some (suc t) ↦ scan_token cs (suc t) (newer (token_at (suc t)) cs found)
        ])
    by_jump none go = tt
    by_jump (some zero) go = v
    by_jump (some (suc t)) go = go (suc t)

separators_le : (cs : List ℕ) → length (separators cs).1 ≤ length cs
unfolding separators
separators_le [] = omega arith
separators_le (c ∷ cs) =
    if_rule (λ (r : List ℕ × List ℕ). length r.1 ≤ suc (length cs)) (is_separator c)
      (c ∷ (separators cs).0, (separators cs).1) ([], c ∷ cs)
      (λ _. let h = separators_le cs in omega arith) (λ _. omega arith)

separators_lt :
    (c : ℕ) (cs : List ℕ) → is_separator c ≡ true → length (separators (c ∷ cs)).1 < length (c ∷ cs)
unfolding separators
separators_lt c cs h = let le = separators_le cs in rw h (omega arith)

next_tfmt-LeavesLess : (fmt : List ℕ) → LeavesLess (length fmt) (next_tfmt fmt)
unfolding next_tfmt short_word
next_tfmt-LeavesLess [] = tt
next_tfmt-LeavesLess (c ∷ cs) =
    if_rule (LeavesLess (length (c ∷ cs))) (is_separator c) _ _
      (λ h.
        let r = separators (c ∷ cs) in
        if_rule (LeavesLess (length (c ∷ cs))) (ltb (length r.0) 32) (word r.0 r.1) stop
          (λ _. separators_lt c cs h) (λ _. tt))
      (λ _. scan_token-LeavesLess (length (c ∷ cs)) (c ∷ cs) 0 stop (omega arith) tt)

read_one_enough :
    (this_year scale fuel : ℕ) (go : List ℕ → List ℕ → Fields → Tokens) (str : List ℕ) (f : Fields)
    (r : Lexed)
    → ((str' fmt' : List ℕ) (f' : Fields) → length fmt' < fuel → go str' fmt' f' ≢ no_fuel)
    → LeavesLess fuel r
    → read_one this_year scale go str f r ≢ no_fuel
unfolding read_one
read_one_enough this_year scale fuel go str f stop enough h = λ e. cc
read_one_enough this_year scale fuel go str f out_of_table enough h = λ e. cc
read_one_enough this_year scale fuel go str f (token k rest) enough h =
    let r = read_token this_year scale k f str in enough r.1 rest r.0 h
read_one_enough this_year scale fuel go str f (word w rest) enough h =
    if_rule (λ t. t ≢ no_fuel) (at_era (skip_blanks str)) (era f (skip_blanks str))
      (go (skip_to_digit (skip_blanks str)) rest f) (λ _ e. cc)
      (λ _. enough (skip_to_digit (skip_blanks str)) rest f h)

less_mono : (n fuel : ℕ) (r : Lexed) → n ≤ fuel → LeavesLess n r → LeavesLess fuel r
less_mono n fuel (token k rest) h v = omega arith
less_mono n fuel (word w rest) h v = omega arith
less_mono n fuel stop h v = tt
less_mono n fuel out_of_table h v = tt

read_tokens_enough :
    (this_year scale fuel : ℕ) (str fmt : List ℕ) (f : Fields)
    → length fmt < fuel
    → read_tokens this_year scale fuel str fmt f ≢ no_fuel
unfolding read_tokens
read_tokens_enough this_year scale fuel [] fmt f h = λ e. cc
read_tokens_enough this_year scale zero (c ∷ cs) fmt f h = omega arith
read_tokens_enough this_year scale (suc fuel) (c ∷ cs) fmt f h =
    read_one_enough this_year scale fuel (read_tokens this_year scale fuel) (c ∷ cs) f
      (next_tfmt fmt) (read_tokens_enough this_year scale fuel)
      (less_mono (length fmt) fuel (next_tfmt fmt) (omega arith) (next_tfmt-LeavesLess fmt))

with_era_decides :
    (tm : DateTime) (f : Fields) (have_tz : Bool) (t_z : ℤ) (o : Option ℤ)
    → with_era tm f have_tz t_z o ≢ stuck
unfolding with_era check no_era
with_era_decides tm f have_tz t_z none =
    if_rule (λ p. p ≢ stuck) f.y2_as_y4 (again have_tz) refused (λ _ e. cc) (λ _ e. cc)
with_era_decides tm f have_tz t_z (some y) =
    if_rule (λ p. p ≢ stuck) (not (fit_ints f)) overflown _ (λ _ e. cc)
      (λ _.
        if_rule (λ p. p ≢ stuck) (leb (abs t_z) 1440 && (in_range y f && day_in_month y f))
          (done (store tm y f have_tz t_z)) refused (λ _ e. cc) (λ _ e. cc))

finish_decides :
    (tm : DateTime) (have_tz : Bool) (ts : Tokens) → ts ≢ no_fuel → finish tm have_tz ts ≢ stuck
unfolding finish chk_bc_ad
finish_decides tm have_tz (ended f str) h =
    let z = read_zone (skip_blanks str) in
    with_era_decides tm f (have_tz || z.have_tz) z.t_z (era_year f.y (skip_blanks z.behind))
finish_decides tm have_tz (era f str) h =
    with_era_decides tm f have_tz (pos 0) (era_year f.y (skip_blanks str))
finish_decides tm have_tz no_table h = λ e. cc
finish_decides tm have_tz no_fuel h = absurd (h refl)

pub pass_decides :
    (this_year scale : ℕ) (tm : DateTime) (str fmt : List ℕ) (flag have_tz : Bool)
    → pass this_year scale tm str fmt flag have_tz ≢ stuck
unfolding pass
pass_decides this_year scale tm str fmt flag have_tz =
    finish_decides tm have_tz
      (read_tokens this_year scale (length fmt + 1) (skip_blanks str) fmt (fresh flag))
      (read_tokens_enough this_year scale (length fmt + 1) (skip_blanks str) fmt (fresh flag)
        (omega arith))
