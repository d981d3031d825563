-- ===== src/TimeText/Match.antt =====
-- The automaton against the words.
use nihao_github_io.Base.{
  ℕ, ◌≤◌, ◌<◌, ◌≡◌, refl, ◌∙◌, sym, ap, Option, none, some, List, [], ◌∷◌, ◌++◌, ==_iff, length,
  append_assoc, append-nil, ◌⊎◌, inl, inr, arith,
}
use nihao_github_io.TimeText.{Lexed, token, newer}
use nihao_github_io.TimeText.Words.{kind, lower, behind, reads}

abbrev pub AllAscii : List ℕ → Type 0
AllAscii [] = Unit {0}
AllAscii (c ∷ cs) = (c < 128) × AllAscii cs

pub behind_cons :
    (x c : ℕ) (v cs rest : List ℕ)
    → behind (x ∷ v) (c ∷ cs) ≡ some rest
    → (x ≡ lower c) × (behind v cs ≡ some rest)
unfolding behind
behind_cons x c v cs rest h = ground (arith, h, ==_iff x (lower c))

cons_behind :
    (c : ℕ) (v cs rest : List ℕ)
    → behind v cs ≡ some rest
    → behind (lower c ∷ v) (c ∷ cs) ≡ some rest
unfolding behind
cons_behind c v cs rest h = ground (arith, h)

behind_nil : (cs rest : List ℕ) → behind [] cs ≡ some rest → cs ≡ rest
unfolding behind
behind_nil cs rest h = cc

nil_behind : (cs : List ℕ) → behind [] cs ≡ some cs
unfolding behind
nil_behind cs = refl

pub cons_behind_nil : (x : ℕ) (v rest : List ℕ) → behind (x ∷ v) [] ≡ some rest → ⊥
unfolding behind
cons_behind_nil x v rest h = cc

length-behind : (v cs rest : List ℕ) → behind v cs ≡ some rest → length rest ≤ length cs
length-behind [] cs rest h = (let e = behind_nil cs rest h in omega (arith, ap length e))
length-behind (x ∷ v) [] rest h = absurd (cons_behind_nil x v rest h)
length-behind (x ∷ v) (c ∷ cs) rest h =
    let (e, f) = behind_cons x c v cs rest h in omega (arith, length-behind v cs rest f)

-- From a state: a longer word that the text goes on with.
pub record Goes (s : ℕ) (cs : List ℕ) (k : ℕ) (rest : List ℕ) : Type 0 where
  pub first : ℕ
  pub others : List ℕ
  pub word_is : kind (reads s ++ (first ∷ others)) ≡ some k
  pub matches : behind (first ∷ others) cs ≡ some rest

-- What the loop returns from a state.
pub data IsLongest (s : ℕ) (cs : List ℕ) (found : Lexed) (r : Lexed) : Type 0 where
  kept : r ≡ found → ((k : ℕ) (rest : List ℕ) → Goes s cs k rest → ⊥) → IsLongest s cs found r
  longer :
      (k : ℕ) (rest : List ℕ)
      → r ≡ token k rest
      → Goes s cs k rest
      → ((k' : ℕ) (rest' : List ℕ) → Goes s cs k' rest' → length rest ≤ length rest')
      → IsLongest s cs found r

-- A word on from a state ends with the next byte or goes on from the next state.
Goes-jump :
    (s t c k : ℕ) (cs rest : List ℕ)
    → reads t ≡ reads s ++ (lower c ∷ [])
    → Goes s (c ∷ cs) k rest
    → ((kind (reads t) ≡ some k) × (cs ≡ rest)) ⊎ Goes t cs k rest
Goes-jump s t c k cs rest e g =
    let (same, f) = behind_cons g.first c g.others cs rest g.matches in
    let kind_is : kind (reads t ++ g.others) ≡ some k =
      ap (λ x. kind (x ++ g.others)) e
      ∙ ap kind (append_assoc (reads s) (lower c ∷ []) g.others)
      ∙ ap (λ x. kind (reads s ++ (x ∷ g.others))) (sym same)
      ∙ g.word_is in
    split g.others kind_is f
  where
    split :
        (v : List ℕ)
        → kind (reads t ++ v) ≡ some k
        → behind v cs ≡ some rest
        → ((kind (reads t) ≡ some k) × (cs ≡ rest)) ⊎ Goes t cs k rest
    split [] h f = inl (ap kind (sym (append-nil (reads t))) ∙ h, behind_nil cs rest f)
    split (x ∷ v) h f = inr (record { first = x; others = v; word_is = h; matches = f })

jump-Goes :
    (s t c k : ℕ) (v cs rest : List ℕ)
    → reads t ≡ reads s ++ (lower c ∷ [])
    → kind (reads t ++ v) ≡ some k
    → behind v cs ≡ some rest
    → Goes s (c ∷ cs) k rest
jump-Goes s t c k v cs rest e h f = record {
  first = lower c;
  others = v;
  word_is =
      ap kind (sym (append_assoc (reads s) (lower c ∷ []) v)) ∙ ap (λ x. kind (x ++ v)) (sym e) ∙ h;
  matches = cons_behind c v cs rest f;
}

module _ (s t c : ℕ) (cs : List ℕ) (found : Lexed) (e : reads t ≡ reads s ++ (lower c ∷ [])) where
  pub kept_step :
      (r : Lexed) (o : Option ℕ)
      → kind (reads t) ≡ o
      → r ≡ newer o cs found
      → ((k : ℕ) (rest : List ℕ) → Goes t cs k rest → ⊥)
      → IsLongest s (c ∷ cs) found r
  unfolding newer
  kept_step r none h f no_more = kept f λ k rest g. elim (Goes-jump s t c k cs rest e g) [
    | inl (a, _) ↦ absurd cc
    | inr g' ↦ no_more k rest g'
  ]
  kept_step r (some k) h f no_more =
      longer k cs f
        (jump-Goes s t c k [] cs cs e (ap kind (append-nil (reads t)) ∙ h) (nil_behind cs))
        λ k' rest' g. elim (Goes-jump s t c k' cs rest' e g) [
          | inl (_, b) ↦ omega (arith, ap length b)
          | inr g' ↦ absurd (no_more k' rest' g')
        ]

  pub longer_step :
      (r : Lexed) (k : ℕ) (rest : List ℕ)
      → r ≡ token k rest
      → Goes t cs k rest
      → ((k' : ℕ) (rest' : List ℕ) → Goes t cs k' rest' → length rest ≤ length rest')
      → IsLongest s (c ∷ cs) found r
  longer_step r k rest f g most =
      longer k rest f (jump-Goes s t c k (g.first ∷ g.others) cs rest e g.word_is g.matches)
        λ k' rest' g'. elim (Goes-jump s t c k' cs rest' e g') [
          | inl (_, b) ↦
              omega (arith, ap length b, length-behind (g.first ∷ g.others) cs rest g.matches)
          | inr g'' ↦ most k' rest' g''
        ]
