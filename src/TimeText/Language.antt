-- ===== src/TimeText/Language.antt =====
-- What `next_tfmt` returns.
use nihao_github_io.Base.{
  ℕ, zero, suc, ◌≤◌, ◌<◌, ◌≡◌, refl, ◌∙◌, sym, ap, true, false, Option, none, some, List, [], ◌∷◌,
  ◌++◌, length, append_assoc, ltb, ltb→lt, if_rule, Bool-cases, ◌⊎◌, inl, inr, arith,
}
use nihao_github_io.TimeText.{
  Lexed, token, word, stop, out_of_table, jmp_to, token_at, newer, scan_token, next_tfmt,
  is_separator, separators, short_word,
}
use nihao_github_io.TimeText.Words.{kind, lookup, same_text, lower, behind, reads}
use nihao_github_io.TimeText.Longest.{kind-token_at, IsJump, jmp_to-IsJump}
use nihao_github_io.TimeText.Match.{
  AllAscii, behind_cons, cons_behind_nil, Goes, IsLongest, kept, longer, kept_step, longer_step,
}

-- The loop, by the state it moves to.
abbrev moved : ℕ → List ℕ → Lexed → Option ℕ → Lexed
moved c cs found none = out_of_table
moved c cs found (some zero) = found
moved c cs found (some (suc t)) = scan_token cs (suc t) (newer (token_at (suc t)) cs found)

scan_token_lem :
    (s c : ℕ) (cs : List ℕ) (found : Lexed)
    → scan_token (c ∷ cs) s found ≡ moved c cs found (jmp_to s c)
unfolding scan_token
scan_token_lem s c cs found = by_jump (jmp_to s c)
  where
    by_jump :
        (o : Option ℕ)
        → elim o [
          | none ↦ out_of_table
          | some zero ↦ found
          | some (suc t) ↦ scan_token cs (suc t) (newer (token_at (suc t)) cs found)
        ]
          ≡ moved c cs found o
    by_jump none = refl
    by_jump (some zero) = refl
    by_jump (some (suc t)) = refl

no_empty : (k : ℕ) → kind [] ≡ some k → ⊥
unfolding lookup same_text
no_empty k e = cc

dead_end : (s c k : ℕ) (cs rest : List ℕ) → IsJump s c (some zero) → Goes s (c ∷ cs) k rest → ⊥
dead_end s c k cs rest dead g =
    let same = (behind_cons g.first c g.others cs rest g.matches).0 in
    let no_kind : kind (reads s ++ (g.first ∷ g.others)) ≡ none =
      ap (λ x. kind (reads s ++ (x ∷ g.others))) same
      ∙ ap kind (sym (append_assoc (reads s) (lower c ∷ []) g.others))
      ∙ dead g.others in
    let a_kind = g.word_is in cc

moved-IsLongest :
    (s c : ℕ) (cs : List ℕ) (found : Lexed) (o : Option ℕ)
    → ((t : ℕ) (f : Lexed) → t < 37 → IsLongest t cs f (scan_token cs t f))
    → IsJump s c o
    → IsLongest s (c ∷ cs) found (moved c cs found o)
moved-IsLongest s c cs found none go h = absurd h
moved-IsLongest s c cs found (some zero) go dead =
    kept refl (λ k rest g. dead_end s c k cs rest dead g)
moved-IsLongest s c cs found (some (suc t)) go (small, e) =
    let r = scan_token cs (suc t) (newer (token_at (suc t)) cs found) in
    elim (go (suc t) (newer (token_at (suc t)) cs found) small) [
      | kept f no_more ↦
          kept_step s (suc t) c cs found e r (token_at (suc t)) (sym (kind-token_at (suc t) small))
            f no_more
      | longer k rest f g most ↦ longer_step s (suc t) c cs found e r k rest f g most
    ]

scan_token-IsLongest :
    (cs : List ℕ) (s : ℕ) (found : Lexed)
    → s < 37
    → AllAscii cs
    → IsLongest s cs found (scan_token cs s found)
scan_token-IsLongest [] s found h v =
    unfold scan_token in kept refl (λ k rest g. cons_behind_nil g.first g.others rest g.matches)
scan_token-IsLongest (c ∷ cs) s found h v = rw (scan_token_lem s c cs found) (
    moved-IsLongest s c cs found (jmp_to s c) (λ t f k. scan_token-IsLongest cs t f k v.1)
      (jmp_to-IsJump s c h v.0))

-- The text starts with a word of the format language, of this kind and with this behind it.
pub record Starts (text : List ℕ) (k : ℕ) (rest : List ℕ) : Type 0 where
  pub spelling : List ℕ
  pub word_is : kind spelling ≡ some k
  pub matches : behind spelling text ≡ some rest

abbrev pub AllSeparators : List ℕ → Type 0
AllSeparators [] = Unit {0}
AllSeparators (c ∷ cs) = (is_separator c ≡ true) × AllSeparators cs

abbrev pub AtWord : List ℕ → Type 0
AtWord [] = Unit {0}
AtWord (c ∷ cs) = is_separator c ≡ false

-- What the lexer should return for a text.
pub data IsLexed (text : List ℕ) (r : Lexed) : Type 0 where
  at_end : text ≡ [] → r ≡ stop → IsLexed text r
  between :
      (w rest : List ℕ)
      → text ≡ w ++ rest
      → AllSeparators w
      → AtWord rest
      → ((length w < 32) × (r ≡ word w rest)) ⊎ ((32 ≤ length w) × (r ≡ stop))
      → IsLexed text r
  no_word : r ≡ stop → ((k : ℕ) (rest : List ℕ) → Starts text k rest → ⊥) → IsLexed text r
  longest :
      (k : ℕ) (rest : List ℕ)
      → r ≡ token k rest
      → Starts text k rest
      → ((k' : ℕ) (rest' : List ℕ) → Starts text k' rest' → length rest ≤ length rest')
      → IsLexed text r

Starts-Goes : (text rest : List ℕ) (k : ℕ) → Starts text k rest → Goes 0 text k rest
Starts-Goes text rest k g = by_spelling g.spelling g.word_is g.matches
  where
    by_spelling : (w : List ℕ) → kind w ≡ some k → behind w text ≡ some rest → Goes 0 text k rest
    by_spelling [] e f = absurd (no_empty k e)
    by_spelling (x ∷ w) e f = record { first = x; others = w; word_is = e; matches = f }

separators_lem :
    (text : List ℕ)
    → let r = separators text in (text ≡ r.0 ++ r.1) × AllSeparators r.0 × AtWord r.1
unfolding separators
separators_lem [] = (refl, tt, tt)
separators_lem (c ∷ cs) = elim (Bool-cases (is_separator c)) [
  | inl e ↦ (let (a, b, d) = separators_lem cs in rw e (ap (λ x. c ∷ x) a, (e, b), d))
  | inr e ↦ rw e (refl, tt, e)
]

short_word_lem :
    (w rest : List ℕ)
    → ((length w < 32) × (short_word (w, rest) ≡ word w rest))
      ⊎ ((32 ≤ length w) × (short_word (w, rest) ≡ stop))
unfolding short_word
short_word_lem w rest = elim (Bool-cases (ltb (length w) 32)) [
  | inl e ↦ inl (ltb→lt (length w) 32 e, rw e refl)
  | inr e ↦ inr (ground (arith, e), rw e refl)
]

-- For a format in ASCII, `next_tfmt` returns the longest word of the format language that the
-- format starts with, letters of either case, and the format behind it; in front of any other
-- letter or digit it stops. In front of other bytes it returns them up to the next letter or
-- digit, and stops if they are 32 or more. It never reads behind the end of a table.
pub next_tfmt-IsLexed : (text : List ℕ) → AllAscii text → IsLexed text (next_tfmt text)
unfolding next_tfmt
next_tfmt-IsLexed [] v = at_end refl refl
next_tfmt-IsLexed (c ∷ cs) v =
    if_rule (IsLexed (c ∷ cs)) (is_separator c) _ _
      (λ _.
        let (a, b, d) = separators_lem (c ∷ cs) in
        let r = separators (c ∷ cs) in between r.0 r.1 a b d (short_word_lem r.0 r.1))
      (λ _. elim (scan_token-IsLongest (c ∷ cs) 0 stop (omega arith) v) [
        | kept f no_more ↦ no_word f (λ k rest g. no_more k rest (Starts-Goes (c ∷ cs) rest k g))
        | longer k rest f g most ↦
            longest k rest f
              (record { spelling = g.first ∷ g.others; word_is = g.word_is; matches = g.matches })
              (λ k' rest' g'. most k' rest' (Starts-Goes (c ∷ cs) rest' k' g'))
      ])
