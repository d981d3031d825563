-- ===== src/TimeText/Longest.antt =====
-- `next_tfmt` takes the longest word of the format language.
use nihao_github_io.Base.{
  ℕ, zero, suc, ◌<◌, ◌≡◌, refl, ap, Bool, true, false, ◌&&◌, Option, none, some, List, [], ◌∷◌,
  ◌++◌, ltb, ◌==◌, ==_iff, ltb→lt, Bool-cases, inl, inr, arith,
}
use nihao_github_io.Base.Ranges.{all_below, all_below_sound}
use nihao_github_io.TimeText.{jmp_to, token_at}
use nihao_github_io.TimeText.Words.{
  Word, words, same_text, lookup, kind, lower, reads, starts_with, no_start, same_option, state_ok,
  step_ok, steps_ok, states_checked, steps_checked,
}

same_text_lem : (v w : List ℕ) → same_text v w ≡ true → v ≡ w
unfolding same_text
same_text_lem [] [] e = refl
same_text_lem [] (y ∷ ys) e = cc
same_text_lem (x ∷ xs) [] e = cc
same_text_lem (x ∷ xs) (y ∷ ys) e = elim (Bool-cases (x == y)) [
  | inl h ↦
      let tail : xs ≡ ys = same_text_lem xs ys (ground (arith, e, h)) in
      let head : x ≡ y = (==_iff x y).0 h in rw head (ap (λ zs. y ∷ zs) tail)
  | inr h ↦ absurd (ground (arith, e, h))
]

no_start_text : (w v u : List ℕ) → starts_with w v ≡ false → same_text (w ++ u) v ≡ false
unfolding starts_with same_text
no_start_text [] v u h = cc
no_start_text (x ∷ w) [] u h = refl
no_start_text (x ∷ w) (y ∷ v) u h = ground (arith, h, no_start_text w v u)

-- Nothing that starts with such a text is a word.
no_start_lem : (w u : List ℕ) (ws : List Word) → no_start w ws ≡ true → lookup (w ++ u) ws ≡ none
unfolding no_start lookup
no_start_lem w u [] h = refl
no_start_lem w u ((v, k) ∷ ws) h = ground (arith, h, no_start_text w v u, no_start_lem w u ws)

same_option_lem : (a b : Option ℕ) → same_option a b ≡ true → a ≡ b
unfolding same_option
same_option_lem none none h = refl
same_option_lem none (some b) h = cc
same_option_lem (some a) none h = cc
same_option_lem (some a) (some b) h = ap some ((==_iff a b).0 h)

pub kind-token_at : (s : ℕ) → s < 37 → token_at s ≡ kind (reads s)
unfolding state_ok
kind-token_at s h = same_option_lem _ _ (all_below_sound 37 state_ok s states_checked h)

-- A step of the automaton.
abbrev pub IsJump : ℕ → ℕ → Option ℕ → Type 0
IsJump s c none = ⊥
IsJump s c (some zero) = (u : List ℕ) → kind ((reads s ++ (lower c ∷ [])) ++ u) ≡ none
IsJump s c (some (suc t)) = (suc t < 37) × (reads (suc t) ≡ reads s ++ (lower c ∷ []))

step_ok_lem : (s c : ℕ) (o : Option ℕ) → step_ok (reads s ++ (lower c ∷ [])) o ≡ true → IsJump s c o
unfolding step_ok
step_ok_lem s c none h = cc
step_ok_lem s c (some zero) h = λ u. no_start_lem (reads s ++ (lower c ∷ [])) u words h
step_ok_lem s c (some (suc t)) h =
    let (small, same) = both (ltb t 36) _ h in
    (omega (arith, ltb→lt t 36 small), same_text_lem _ _ same)
  where
    both : (a b : Bool) → (a && b) ≡ true → (a ≡ true) × (b ≡ true)
    both true b h = (refl, h)
    both false b h = cc

pub jmp_to-IsJump : (s c : ℕ) → s < 37 → c < 128 → IsJump s c (jmp_to s c)
unfolding steps_ok
jmp_to-IsJump s c h k = step_ok_lem s c (jmp_to s c) (
    all_below_sound 128 (steps_ok s) c
      (all_below_sound 37 (λ s. all_below 128 (steps_ok s)) s steps_checked h) k)
