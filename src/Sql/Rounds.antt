-- ===== src/Sql/Rounds.antt =====
-- What one round of the main loop does.
use nihao_github_io.Base.{
  ℕ, zero, suc, ◌+◌, ◌-◌, ◌≤◌, ◌<◌, ◌≡◌, ◌≢◌, refl, ◌⊎◌, inl, inr, true, false, Option, none, some,
  ltb, ◌==◌, ◌&&◌, Bool-cases, if_rule, ==_iff, arith,
}
use native.Mathlib.Decide.{dec_lt}
use nihao_github_io.Sql.{
  Param, Status, comment_error, string_error, ident_error, stuck, Round, move, add, fail, name_end,
  name_round, move_or, round,
}
use nihao_github_io.Sql.Ctype.{is_alnum}
use nihao_github_io.Sql.Skip.{
  skip_quoted_loop, skip_quoted, skip_comment1_loop, skip_comment1, skip_comment2_loop,
  skip_comment2,
}

-- `end` is where the name that starts at `off` ends: letters and digits up to it, and there the
-- statement ends or another byte stands.
pub record IsNameEnd (stmt : ℕ → ℕ) (off left end : ℕ) : Type 0 where
  pub after : off ≤ end
  pub within : end ≤ off + left
  pub letters : (i : ℕ) → off ≤ i → i < end → is_alnum (stmt i) ≡ true
  pub stop : (end ≡ off + left) ⊎ (is_alnum (stmt end) ≡ false)

pub name_end_lem : (stmt : ℕ → ℕ) (left off : ℕ) → IsNameEnd stmt off left (name_end stmt left off)
unfolding name_end
name_end_lem stmt zero off = record {
  after = omega arith;
  within = omega arith;
  letters = λ i a b. absurd (omega arith);
  stop = inl (omega arith);
}
name_end_lem stmt (suc left) off = elim (Bool-cases (is_alnum (stmt off))) [
  | inl more ↦
      let r = name_end_lem stmt left (off + 1) in
      rw (more) (record {
        after = omega (arith, r.after);
        within = omega (arith, r.within);
        letters = λ i a b. elim (dec_lt off i) [
          | yes c ↦ r.letters i (omega arith) b
          | no c ↦ (let e : i ≡ off = omega arith in rw e more)
        ];
        stop = elim r.stop [ inl e ↦ inl (omega arith) | inr e ↦ inr e ];
      })
  | inr over ↦ rw over (record {
    after = omega arith;
    within = omega arith;
    letters = λ i a b. absurd (omega arith);
    stop = inr over;
  })
]

pub skip_quoted_loop-lt :
    (q : ℕ) (stmt : ℕ → ℕ) (left off : ℕ) (end : ℕ)
    → skip_quoted_loop q stmt left off ≡ some end
    → (off < end) × (end ≤ off + left)
unfolding skip_quoted_loop
skip_quoted_loop-lt q stmt zero off end h = cc
skip_quoted_loop-lt q stmt (suc zero) off end h = ground arith
skip_quoted_loop-lt q stmt (suc (suc left)) off end h = ground (
  arith,
  skip_quoted_loop-lt q stmt left (off + 2) end,
  skip_quoted_loop-lt q stmt (suc left) (off + 1) end,
)

pub skip_comment1_loop-lt :
    (stmt : ℕ → ℕ) (left off : ℕ) (end : ℕ)
    → skip_comment1_loop stmt left off ≡ some end
    → (off < end) × (end ≤ off + left)
unfolding skip_comment1_loop
skip_comment1_loop-lt stmt zero off end h = cc
skip_comment1_loop-lt stmt (suc zero) off end h = cc
skip_comment1_loop-lt stmt (suc (suc left)) off end h =
    ground (arith, skip_comment1_loop-lt stmt (suc left) (off + 1) end)

pub skip_comment2_loop-le :
    (stmt : ℕ → ℕ) (left off : ℕ)
    → (off ≤ skip_comment2_loop stmt left off) × (skip_comment2_loop stmt left off ≤ off + left)
unfolding skip_comment2_loop
skip_comment2_loop-le stmt zero off = omega arith
skip_comment2_loop-le stmt (suc zero) off = omega arith
skip_comment2_loop-le stmt (suc (suc left)) off =
    ground (arith, skip_comment2_loop-le stmt (suc left) (off + 1))

-- A parameter as the scanner records it: a question mark, or a colon and a name of letters and
-- digits that is as long as it can be, colon and name of at most 30 bytes.
pub data IsParam (stmt : ℕ → ℕ) (len : ℕ) (p : Param) : Type 0 where
  mark : stmt p.off ≡ b'?' → p.len ≡ 1 → IsParam stmt len p
  name :
      stmt p.off ≡ b':'
      → p.len ≤ 30
      → IsNameEnd stmt (p.off + 1) (len - (p.off + 1)) (p.off + p.len)
      → IsParam stmt len p

abbrev pub IsRound : (ℕ → ℕ) → ℕ → ℕ → Round → Type 0
IsRound stmt len off (move next) = off < next
IsRound stmt len off (add p next) =
    (p.off ≡ off) × (off + p.len ≡ next) × (off < next) × (next ≤ len) × IsParam stmt len p
IsRound stmt len off (fail e) = e ≢ stuck

name_round_lem :
    (stmt : ℕ → ℕ) (len off end : ℕ)
    → stmt off ≡ b':'
    → off < len
    → IsNameEnd stmt (off + 1) (len - (off + 1)) end
    → IsRound stmt len off (name_round off end)
unfolding name_round
name_round_lem stmt len off end colon h n = elim (Bool-cases (ltb 30 (end - off))) [
  | inl long ↦ rw long (λ e. cc)
  | inr short ↦
      let e : off + (end - off) ≡ end = omega (arith, n.after) in
      rw short (
        refl,
        e,
        omega (arith, n.after),
        omega (arith, n.within),
        name colon (ground arith) (rw e n),
      )
]

move_or_lem :
    (stmt : ℕ → ℕ) (len off : ℕ) (e : Status) (o : Option ℕ)
    → e ≢ stuck
    → ((end : ℕ) → o ≡ some end → off < end)
    → IsRound stmt len off (move_or e o)
unfolding move_or
move_or_lem stmt len off e none h k = h
move_or_lem stmt len off e (some end) h k = k end refl

skip_quoted-IsRound :
    (q : ℕ) (stmt : ℕ → ℕ) (len off : ℕ) (e : Status)
    → e ≢ stuck
    → IsRound stmt len off (move_or e (skip_quoted q stmt off len))
unfolding skip_quoted
skip_quoted-IsRound q stmt len off e h =
    move_or_lem stmt len off e (skip_quoted q stmt off len) h
      λ end f. omega (arith, skip_quoted_loop-lt q stmt (len - (off + 1)) (off + 1) end f)

skip_comment1-IsRound :
    (stmt : ℕ → ℕ) (len off : ℕ)
    → IsRound stmt len off (move_or comment_error (skip_comment1 stmt off len))
unfolding skip_comment1
skip_comment1-IsRound stmt len off =
    move_or_lem stmt len off comment_error (skip_comment1 stmt off len) (λ e. cc)
      λ end f. omega (arith, skip_comment1_loop-lt stmt (len - (off + 2)) (off + 2) end f)

skip_comment2_round : (stmt : ℕ → ℕ) (len off : ℕ) → off < skip_comment2 stmt off len
unfolding skip_comment2
skip_comment2_round stmt len off =
    omega (arith, skip_comment2_loop-le stmt (len - (off + 2)) (off + 2))

pub round_lem : (stmt : ℕ → ℕ) (len off : ℕ) → off < len → IsRound stmt len off (round stmt len off)
unfolding round
round_lem stmt len off h =
    let P = IsRound stmt len off in
    if_rule P (stmt off == b'?') _ _
      (λ e. (refl, refl, omega arith, omega arith, mark ((==_iff _ _).0 e) refl))
      λ _.
        if_rule P (stmt off == b':') _ _
          (λ e.
            name_round_lem stmt len off _ ((==_iff _ _).0 e) h
              (name_end_lem stmt (len - (off + 1)) (off + 1)))
          λ _.
            if_rule P (stmt off == 39) _ _
              (λ _. skip_quoted-IsRound 39 stmt len off string_error (λ e. cc))
              λ _.
                if_rule P (stmt off == 34) _ _
                  (λ _. skip_quoted-IsRound 34 stmt len off ident_error (λ e. cc))
                  λ _.
                    if_rule P ((stmt off == b'/') && ltb off (len - 1)) _ _
                      (λ _.
                        if_rule P (stmt (off + 1) == b'*') _ _
                          (λ _. skip_comment1-IsRound stmt len off)
                          λ _.
                            if_rule P (stmt (off + 1) == b'/') _ _
                              (λ _. skip_comment2_round stmt len off) λ _. omega arith)
                      λ _.
                        if_rule P ((stmt off == b'-') && ltb off (len - 1)) _ _
                          (λ _.
                            if_rule P (stmt (off + 1) == b'-') _ _
                              (λ _. skip_comment2_round stmt len off) λ _. omega arith)
                          λ _. omega arith
