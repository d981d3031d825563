-- ===== src/Sql/Quoted.antt =====
-- Quoted strings and identifiers, and block comments: where the scanner says they end.
use nihao_github_io.Base.{
  ℕ, zero, suc, ◌+◌, ◌-◌, ◌≤◌, ◌<◌, ◌≡◌, ◌≢◌, ◌↔◌, refl, Option, none, some, ◌==◌, ◌&&◌, ◌⊎◌, inl,
  inr, subst, Bool-cases, arith,
}
use native.Mathlib.Decide.{ℕ_discrete, dec_lt}
use nihao_github_io.Sql.Skip.{skip_quoted_loop, skip_quoted, skip_comment1_loop, skip_comment1}

-- `Quoted q stmt len off end`: from `off`, inside a quoted text, the text ends at `end`, behind
-- its closing quote. A backslash takes the byte behind it along, unless it is the last byte.
pub data Quoted (q : ℕ) (stmt : ℕ → ℕ) (len : ℕ) : ℕ → ℕ → Type 0 where
  close : (off end : ℕ) → off < len → stmt off ≡ q → end ≡ off + 1 → Quoted q stmt len off end
  escape :
      (off end : ℕ)
      → off + 1 < len
      → stmt off ≢ q
      → stmt off ≡ 92
      → Quoted q stmt len (off + 2) end
      → Quoted q stmt len off end
  plain :
      (off end : ℕ)
      → off + 1 < len
      → stmt off ≢ q
      → stmt off ≢ 92
      → Quoted q stmt len (off + 1) end
      → Quoted q stmt len off end

loop-Quoted :
    (q : ℕ) (stmt : ℕ → ℕ) (len left off end : ℕ)
    → len ≡ off + left
    → skip_quoted_loop q stmt left off ≡ some end
    → Quoted q stmt len off end
unfolding skip_quoted_loop
loop-Quoted q stmt len zero off end h e = cc
loop-Quoted q stmt len (suc zero) off end h e = elim (ℕ_discrete (stmt off) q) [
  | yes c ↦ close off end (omega arith) c (ground arith)
  | no c ↦ absurd (ground arith)
]
loop-Quoted q stmt len (suc (suc left)) off end h e = elim (ℕ_discrete (stmt off) q) [
  | yes c ↦ close off end (omega arith) c (ground arith)
  | no c ↦ elim (ℕ_discrete (stmt off) 92) [
    | yes d ↦
        escape off end (omega arith) c d
          (loop-Quoted q stmt len left (off + 2) end (omega arith) (ground arith))
    | no d ↦
        plain off end (omega arith) c d
          (loop-Quoted q stmt len (suc left) (off + 1) end (omega arith) (ground arith))
  ]
]

Quoted-loop :
    (q : ℕ) (stmt : ℕ → ℕ) (len left off end : ℕ)
    → len ≡ off + left
    → Quoted q stmt len off end
    → skip_quoted_loop q stmt left off ≡ some end
unfolding skip_quoted_loop
Quoted-loop q stmt len zero off end h v = elim v [
  | close _ _ a b c ↦ absurd (omega arith)
  | escape _ _ a b c r ↦ absurd (omega arith)
  | plain _ _ a b c r ↦ absurd (omega arith)
]
Quoted-loop q stmt len (suc zero) off end h (close _ _ a b c) = ground arith
Quoted-loop q stmt len (suc zero) off end h (escape _ _ a b c r) = absurd (omega arith)
Quoted-loop q stmt len (suc zero) off end h (plain _ _ a b c r) = absurd (omega arith)
Quoted-loop q stmt len (suc (suc left)) off end h (close _ _ a b c) = ground arith
Quoted-loop q stmt len (suc (suc left)) off end h (escape _ _ a b c r) =
    ground (arith, Quoted-loop q stmt len left (off + 2) end (omega arith) r)
Quoted-loop q stmt len (suc (suc left)) off end h (plain _ _ a b c r) =
    ground (arith, Quoted-loop q stmt len (suc left) (off + 1) end (omega arith) r)

-- `skipString` and `skipIdent`, called at an offset within the statement, return an offset exactly
-- if the text that starts behind the first offset ends there: behind its first quote, where a
-- backslash takes the byte behind it along.
pub skip_quoted-Quoted :
    (q : ℕ) (stmt : ℕ → ℕ) (off len end : ℕ)
    → off < len
    → (skip_quoted q stmt off len ≡ some end) ↔ Quoted q stmt len (off + 1) end
unfolding skip_quoted
skip_quoted-Quoted q stmt off len end h = (
  loop-Quoted q stmt len (len - (off + 1)) (off + 1) end (omega arith),
  Quoted-loop q stmt len (len - (off + 1)) (off + 1) end (omega arith),
)

-- Two bytes that close a block comment.
abbrev pub Closes : (ℕ → ℕ) → ℕ → Type 0
Closes stmt i = (stmt i ≡ b'*') × (stmt (i + 1) ≡ b'/')

-- The first such place from `from` on, or none.
abbrev pub IsClosing : (ℕ → ℕ) → ℕ → ℕ → Option ℕ → Type 0
IsClosing stmt len from none = (i : ℕ) → from ≤ i → i + 1 < len → Closes stmt i → ⊥
IsClosing stmt len from (some end) =
    (i : ℕ) × (end ≡ i + 2)
    × (from ≤ i)
    × (i + 1 < len)
    × Closes stmt i
    × ((j : ℕ) → from ≤ j → j < i → Closes stmt j → ⊥)

later :
    (stmt : ℕ → ℕ) (len off : ℕ) (o : Option ℕ)
    → (Closes stmt off → ⊥)
    → IsClosing stmt len (off + 1) o
    → IsClosing stmt len off o
later stmt len off none open_here v = λ i a b c. elim (dec_lt off i) [
  | yes d ↦ v i (omega arith) b c
  | no d ↦ (let e : i ≡ off = omega arith in open_here (subst (Closes stmt) e c))
]
later stmt len off (some end) open_here (i, e, a, b, c, first) = (
  i,
  e,
  omega arith,
  b,
  c,
  λ j p q r. elim (dec_lt off j) [
    | yes d ↦ first j (omega arith) q r
    | no d ↦ (let f : j ≡ off = omega arith in open_here (subst (Closes stmt) f r))
  ],
)

loop-IsClosing :
    (stmt : ℕ → ℕ) (len left off : ℕ)
    → len ≤ off + left
    → off + left ≤ len ⊎ (left ≡ 0)
    → IsClosing stmt len off (skip_comment1_loop stmt left off)
unfolding skip_comment1_loop
loop-IsClosing stmt len zero off h k = λ i a b c. absurd (omega arith)
loop-IsClosing stmt len (suc zero) off h k = λ i a b c. absurd (omega arith)
loop-IsClosing stmt len (suc (suc left)) off h k =
    elim (Bool-cases ((stmt off == b'*') && (stmt (off + 1) == b'/'))) [
      | inl e ↦
          rw e (
            off,
            refl,
            omega arith,
            omega (arith, k),
            ground arith,
            λ j p q r. absurd (omega arith),
          )
      | inr e ↦ rw e (
          later stmt len off _ (λ c. ground arith)
            (loop-IsClosing stmt len (suc left) (off + 1) (omega arith) (ground arith)))
    ]

-- `skipComment1` returns the offset behind the first `*/` that stands two bytes or more behind
-- the offset it is called at, and -1 only where the statement has none there.
skip_comment1-IsClosing :
    (stmt : ℕ → ℕ) (off len : ℕ) → IsClosing stmt len (off + 2) (skip_comment1 stmt off len)
unfolding skip_comment1
skip_comment1-IsClosing stmt off len =
    loop-IsClosing stmt len (len - (off + 2)) (off + 2) (omega arith) (ground arith)
