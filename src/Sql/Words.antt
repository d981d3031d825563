-- ===== src/Sql/Words.antt =====
-- The keywords that `getSQLType` looks for, and when its comparison finds one.
use nihao_github_io.Base.{ℕ, suc, ◌≡◌, ◌≢◌, ◌≤◌, ◌<◌, ◌↔◌, refl, true, List, [], ◌∷◌, length, arith}
use nihao_github_io.Sql.{
  SqlType, unknown, select, update, delete, insert, create, drop, alter, begin, declare, call,
  is_same,
}
use nihao_github_io.Sql.Ctype.{upper, ending, astrnicmp, signed_key}

-- The keyword of a kind, in capitals.
abbrev pub word : SqlType → List ℕ
word unknown = []
word select = b'S' ∷ b'E' ∷ b'L' ∷ b'E' ∷ b'C' ∷ b'T' ∷ []
word insert = b'I' ∷ b'N' ∷ b'S' ∷ b'E' ∷ b'R' ∷ b'T' ∷ []
word update = b'U' ∷ b'P' ∷ b'D' ∷ b'A' ∷ b'T' ∷ b'E' ∷ []
word delete = b'D' ∷ b'E' ∷ b'L' ∷ b'E' ∷ b'T' ∷ b'E' ∷ []
word create = b'C' ∷ b'R' ∷ b'E' ∷ b'A' ∷ b'T' ∷ b'E' ∷ []
word drop = b'D' ∷ b'R' ∷ b'O' ∷ b'P' ∷ []
word alter = b'A' ∷ b'L' ∷ b'T' ∷ b'E' ∷ b'R' ∷ []
word begin = b'B' ∷ b'E' ∷ b'G' ∷ b'I' ∷ b'N' ∷ []
word declare = b'D' ∷ b'E' ∷ b'C' ∷ b'L' ∷ b'A' ∷ b'R' ∷ b'E' ∷ []
word call = b'E' ∷ b'X' ∷ b'E' ∷ b'C' ∷ []

-- A word stands at the front, in capitals or not.
abbrev pub Spells : (ℕ → ℕ) → List ℕ → Type 0
Spells s [] = Unit {0}
Spells s (c ∷ cs) = (upper (s 0) ≡ c) × Spells (λ i. s (suc i)) cs

-- Capital letters, as the keywords have them.
abbrev Capitals : List ℕ → Type 0
Capitals [] = Unit {0}
Capitals (c ∷ cs) = (b'A' ≤ c) × (c ≤ b'Z') × Capitals cs

-- One byte against a capital.
step :
    (s : ℕ → ℕ) (c : ℕ) (cs : List ℕ) (n : ℕ)
    → s 0 < 256
    → b'A' ≤ c
    → c ≤ b'Z'
    → (is_same (astrnicmp s (c ∷ cs) (suc n)) ≡ true)
      ↔ ((upper (s 0) ≡ c) × (is_same (astrnicmp (λ i. s (suc i)) cs n) ≡ true))
unfolding astrnicmp upper signed_key ending is_same
step s c cs n h lo hi = ground arith

astrnicmp-Spells :
    (s : ℕ → ℕ) (w : List ℕ)
    → ((i : ℕ) → s i < 256)
    → Capitals w
    → (is_same (astrnicmp s w (length w)) ≡ true) ↔ Spells s w
astrnicmp-Spells s [] h v = unfold astrnicmp is_same in ((λ _. tt), (λ _. refl))
astrnicmp-Spells s (c ∷ cs) h v =
    let one = step s c cs (length cs) (h 0) v.0 v.1 in
    let rest = astrnicmp-Spells (λ i. s (suc i)) cs (λ i. h (suc i)) v.2 in
    ((λ e. ((one.0 e).0, rest.0 (one.0 e).1)), (λ e. one.1 (e.0, rest.1 e.1)))

-- One byte more than the word: a zero must stand there.
astrnicmp-Spells_nul :
    (s : ℕ → ℕ) (w : List ℕ)
    → ((i : ℕ) → s i < 256)
    → Capitals w
    → (is_same (astrnicmp s w (suc (length w))) ≡ true) ↔ (Spells s w × (s (length w) ≡ 0))
astrnicmp-Spells_nul s [] h v = unfold astrnicmp is_same ending in ground arith
astrnicmp-Spells_nul s (c ∷ cs) h v =
    let one = step s c cs (suc (length cs)) (h 0) v.0 v.1 in
    let rest = astrnicmp-Spells_nul (λ i. s (suc i)) cs (λ i. h (suc i)) v.2 in
    (
      (λ e. let r = rest.0 (one.0 e).1 in (((one.0 e).0, r.0), r.1)),
      (λ e. one.1 (e.0.0, rest.1 (e.0.1, e.1))),
    )

-- What the scanner takes for the keyword of a kind. For `EXEC` it compares five bytes, so the
-- byte behind the word has to be zero.
abbrev pub Stands : (ℕ → ℕ) → SqlType → Type 0
Stands s unknown = Unit {0}
Stands s call = Spells s (word call) × (s 4 ≡ 0)
Stands s k = Spells s (word k)

abbrev pub width : SqlType → ℕ
width call = 5
width k = length (word k)

capitals : (k : SqlType) → Capitals (word k)
capitals unknown = tt
capitals select = ground arith
capitals insert = ground arith
capitals update = ground arith
capitals delete = ground arith
capitals create = ground arith
capitals drop = ground arith
capitals alter = ground arith
capitals begin = ground arith
capitals declare = ground arith
capitals call = ground arith

pub stands :
    (s : ℕ → ℕ) (k : SqlType)
    → ((i : ℕ) → s i < 256)
    → (is_same (astrnicmp s (word k) (width k)) ≡ true) ↔ Stands s k
stands s unknown h = astrnicmp-Spells s (word unknown) h (capitals unknown)
stands s select h = astrnicmp-Spells s (word select) h (capitals select)
stands s insert h = astrnicmp-Spells s (word insert) h (capitals insert)
stands s update h = astrnicmp-Spells s (word update) h (capitals update)
stands s delete h = astrnicmp-Spells s (word delete) h (capitals delete)
stands s create h = astrnicmp-Spells s (word create) h (capitals create)
stands s drop h = astrnicmp-Spells s (word drop) h (capitals drop)
stands s alter h = astrnicmp-Spells s (word alter) h (capitals alter)
stands s begin h = astrnicmp-Spells s (word begin) h (capitals begin)
stands s declare h = astrnicmp-Spells s (word declare) h (capitals declare)
stands s call h = astrnicmp-Spells_nul s (word call) h (capitals call)

upper-first : (c d : ℕ) → upper c ≡ d → b'A' ≤ d → b'A' ≤ c
unfolding upper
upper-first c d e h = ground arith

pub first_letter : (s : ℕ → ℕ) (k : SqlType) → k ≢ unknown → Stands s k → b'A' ≤ s 0
first_letter s unknown ne v = absurd (ne refl)
first_letter s select ne v = upper-first (s 0) _ v.0 (omega arith)
first_letter s insert ne v = upper-first (s 0) _ v.0 (omega arith)
first_letter s update ne v = upper-first (s 0) _ v.0 (omega arith)
first_letter s delete ne v = upper-first (s 0) _ v.0 (omega arith)
first_letter s create ne v = upper-first (s 0) _ v.0 (omega arith)
first_letter s drop ne v = upper-first (s 0) _ v.0 (omega arith)
first_letter s alter ne v = upper-first (s 0) _ v.0 (omega arith)
first_letter s begin ne v = upper-first (s 0) _ v.0 (omega arith)
first_letter s declare ne v = upper-first (s 0) _ v.0 (omega arith)
first_letter s call ne v = upper-first (s 0) _ v.0.0 (omega arith)
