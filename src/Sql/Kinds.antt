-- ===== src/Sql/Kinds.antt =====
-- What `getSQLType` finds.
use nihao_github_io.Base.{
  ℕ, ◌+◌, ◌≡◌, ◌≢◌, inl, inr, ◌≤◌, ◌<◌, ◌↔◌, refl, ap, Bool, true, false, Bool-cases, if_rule,
  if◌then◌else◌, arith,
}
use nihao_github_io.Sql.{
  SqlType, unknown, select, update, delete, insert, create, drop, alter, begin, declare, call,
  starts, get_sql_type,
}
use nihao_github_io.Sql.Words.{word, Stands, width, stands, first_letter}

-- A kind and the offset behind its keyword, or none of the keywords.
pub data IsKind (s : ℕ → ℕ) (off : ℕ) : SqlType × ℕ → Type 0 where
  found : (k : SqlType) → k ≢ unknown → Stands s k → IsKind s off (k, off + width k)
  neither : ((k : SqlType) → k ≢ unknown → Stands s k → ⊥) → IsKind s off (unknown, off)

module _ (stmt : ℕ → ℕ) (off : ℕ) (h : (i : ℕ) → stmt i < 256) where
  is : SqlType → Bool
  is k = starts stmt off (word k) (width k)

  is-Stands : (k : SqlType) → (is k ≡ true) ↔ Stands (λ i. stmt (off + i)) k
  unfolding is starts
  is-Stands k = stands (λ i. stmt (off + i)) k λ i. h (off + i)

  -- One keyword after the other.
  try_word :
      (k : SqlType) (rest : SqlType × ℕ)
      → k ≢ unknown
      → (is k ≡ false → IsKind (λ i. stmt (off + i)) off rest)
      → IsKind (λ i. stmt (off + i)) off (if is k then (k, off + width k) else rest)
  try_word k rest ne f =
      if_rule (IsKind (λ i. stmt (off + i)) off) (is k) _ _ (λ e. found k ne ((is-Stands k).0 e)) f

  no_word : (k : SqlType) → is k ≡ false → Stands (λ i. stmt (off + i)) k → ⊥
  no_word k e v = (let f = (is-Stands k).1 v in cc)

  none_of :
      is select ≡ false
      → is insert ≡ false
      → is update ≡ false
      → is delete ≡ false
      → is create ≡ false
      → is drop ≡ false
      → is alter ≡ false
      → is call ≡ false
      → is begin ≡ false
      → is declare ≡ false
      → (k : SqlType) → k ≢ unknown
      → is k ≡ false
  none_of e1 e2 e3 e4 e5 e6 e7 e8 e9 e10 unknown ne = absurd (ne refl)
  none_of e1 e2 e3 e4 e5 e6 e7 e8 e9 e10 select ne = e1
  none_of e1 e2 e3 e4 e5 e6 e7 e8 e9 e10 insert ne = e2
  none_of e1 e2 e3 e4 e5 e6 e7 e8 e9 e10 update ne = e3
  none_of e1 e2 e3 e4 e5 e6 e7 e8 e9 e10 delete ne = e4
  none_of e1 e2 e3 e4 e5 e6 e7 e8 e9 e10 create ne = e5
  none_of e1 e2 e3 e4 e5 e6 e7 e8 e9 e10 drop ne = e6
  none_of e1 e2 e3 e4 e5 e6 e7 e8 e9 e10 alter ne = e7
  none_of e1 e2 e3 e4 e5 e6 e7 e8 e9 e10 call ne = e8
  none_of e1 e2 e3 e4 e5 e6 e7 e8 e9 e10 begin ne = e9
  none_of e1 e2 e3 e4 e5 e6 e7 e8 e9 e10 declare ne = e10

  -- A byte below the letters starts no keyword.
  is-below : (k : SqlType) → k ≢ unknown → stmt off < b'A' → is k ≡ false
  is-below k ne lt = elim (Bool-cases (is k)) [
    | inr e ↦ e
    | inl e ↦
        let first : b'A' ≤ stmt (off + 0) =
          first_letter (λ i. stmt (off + i)) k ne ((is-Stands k).0 e) in
        let same : off + 0 ≡ off = omega arith in absurd (omega (arith, first, ap stmt same))
  ]

-- `getSQLType` returns the kind of a keyword only where that keyword stands, in capitals or not,
-- with the offset behind it, and "unknown" with the offset it was given only where none stands.
-- For `EXEC` to stand, the byte behind it has to be zero: four bytes of the word and one more are
-- compared.
pub get_sql_type-IsKind :
    (stmt : ℕ → ℕ) (off : ℕ)
    → ((i : ℕ) → stmt i < 256)
    → IsKind (λ i. stmt (off + i)) off (get_sql_type stmt off)
unfolding get_sql_type is
get_sql_type-IsKind stmt off h =
    try_word stmt off h select _ (λ e. cc)
      λ e1.
        try_word stmt off h insert _ (λ e. cc)
          λ e2.
            try_word stmt off h update _ (λ e. cc)
              λ e3.
                try_word stmt off h delete _ (λ e. cc)
                  λ e4.
                    try_word stmt off h create _ (λ e. cc)
                      λ e5.
                        try_word stmt off h drop _ (λ e. cc)
                          λ e6.
                            try_word stmt off h alter _ (λ e. cc)
                              λ e7.
                                try_word stmt off h call _ (λ e. cc)
                                  λ e8.
                                    try_word stmt off h begin _ (λ e. cc)
                                      λ e9.
                                        try_word stmt off h declare _ (λ e. cc)
                                          λ e10. neither λ k ne.
                                            no_word stmt off h k (
                                              none_of stmt off h e1 e2 e3 e4 e5 e6 e7 e8 e9 e10 k
                                                ne)

-- Where a byte below the letters stands, a blank or the start of a comment, `getSQLType` returns
-- "unknown" and stays there.
pub get_sql_type_below :
    (stmt : ℕ → ℕ) (off : ℕ)
    → ((i : ℕ) → stmt i < 256)
    → stmt off < b'A'
    → get_sql_type stmt off ≡ (unknown, off)
unfolding get_sql_type is
get_sql_type_below stmt off h lt = rw (is-below stmt off h select (λ e. cc) lt) (
    rw (is-below stmt off h insert (λ e. cc) lt) (
      rw (is-below stmt off h update (λ e. cc) lt) (
        rw (is-below stmt off h delete (λ e. cc) lt) (
          rw (is-below stmt off h create (λ e. cc) lt) (
            rw (is-below stmt off h drop (λ e. cc) lt) (
              rw (is-below stmt off h alter (λ e. cc) lt) (
                rw (is-below stmt off h call (λ e. cc) lt) (
                  rw (is-below stmt off h begin (λ e. cc) lt)
                    (rw (is-below stmt off h declare (λ e. cc) lt) refl)))))))))
