-- ===== src/Sql/Parse.antt =====
-- `parseSQL` as a whole.
use nihao_github_io.Base.{
  ℕ, zero, suc, ◌+◌, ◌≤◌, ◌<◌, ◌≡◌, ◌≢◌, refl, ap, inl, inr, true, false, Option, none, some, ◌==◌,
  ◌&&◌, ◌||◌, Bool-cases, if_rule, Option_rule, arith,
}
use native.Mathlib.Decide.{dec_lt}
use nihao_github_io.Sql.{
  Status, stuck, comment_error, Parsed, failed, parse_from, parse_after, parse_lead, parse_sql,
  skip_spaces, get_sql_type,
}
use nihao_github_io.Sql.Ctype.{is_space}
use nihao_github_io.Sql.Skip.{skip_comment1}
use nihao_github_io.Sql.Params.{Placed, Placed-mono, scan-Placed, scan_ends}

-- Past `off` blanks up to a byte that is none.
pub record IsSkipped (stmt : ℕ → ℕ) (off end : ℕ) : Type 0 where
  pub after : off ≤ end
  pub blank : (i : ℕ) → off ≤ i → i < end → is_space (stmt i) ≡ true
  pub stop : is_space (stmt end) ≡ false

is_space_zero : is_space 0 ≡ false
unfolding is_space
is_space_zero = refl

blank-lt :
    (stmt : ℕ → ℕ) (len off : ℕ) → stmt len ≡ 0 → off ≤ len → is_space (stmt off) ≡ true → off < len
unfolding is_space
blank-lt stmt len off nul h blank = elim (dec_lt off len) [
  | yes c ↦ c
  | no c ↦ let e : off ≡ len = omega arith in absurd (ground (arith, nul, blank, ap stmt e))
]

skipped_le : (stmt : ℕ → ℕ) (len end : ℕ) → stmt len ≡ 0 → IsSkipped stmt 0 end → end ≤ len
unfolding is_space
skipped_le stmt len end nul v = elim (dec_lt len end) [
  | yes c ↦ absurd (ground (arith, nul, v.blank len (omega arith) c))
  | no c ↦ omega arith
]

-- A zero at the length stops the loop before its fuel runs out.
pub skip_spaces_total :
    (stmt : ℕ → ℕ) (len fuel off : ℕ)
    → stmt len ≡ 0
    → off ≤ len
    → len < off + fuel
    → (end : ℕ) × (skip_spaces stmt fuel off ≡ some end) × IsSkipped stmt off end
unfolding skip_spaces
skip_spaces_total stmt len zero off nul h k = absurd (omega arith)
skip_spaces_total stmt len (suc fuel) off nul h k = elim (Bool-cases (is_space (stmt off))) [
  | inr over ↦ (
    off,
    rw over refl,
    record { after = omega arith; blank = λ i a b. absurd (omega arith); stop = over },
  )
  | inl blank ↦
      let (end, e, v) =
        skip_spaces_total stmt len fuel (off + 1) nul
          (omega (arith, blank-lt stmt len off nul h blank)) (omega arith) in
      (
        end,
        rw blank e,
        record {
          after = omega (arith, v.after);
          blank = λ i a b. elim (dec_lt off i) [
            | yes c ↦ v.blank i (omega arith) b
            | no c ↦ (let i_is : i ≡ off = omega arith in rw i_is blank)
          ];
          stop = v.stop;
        },
      )
]

abbrev Good : (ℕ → ℕ) → ℕ → Parsed → Type 0
Good stmt len r = Placed stmt len 0 r.scanned.params

parse_from-Placed : (stmt : ℕ → ℕ) (len off : ℕ) → Good stmt len (parse_from stmt len off)
unfolding parse_from
parse_from-Placed stmt len off =
    Placed-mono stmt len 0 (get_sql_type stmt off).1 _ (omega arith)
      (scan-Placed stmt len (len + 1) (get_sql_type stmt off).1)

failed-Placed : (stmt : ℕ → ℕ) (len : ℕ) (e : Status) → Good stmt len (failed e)
unfolding failed
failed-Placed stmt len e = tt

parse_after-Placed :
    (stmt : ℕ → ℕ) (len : ℕ) (o : Option ℕ) → Good stmt len (parse_after stmt len o)
unfolding parse_after
parse_after-Placed stmt len none = failed-Placed stmt len stuck
parse_after-Placed stmt len (some off) = parse_from-Placed stmt len off

-- The ways on from the first byte that is no blank.
pub lead_rule {ℓ} :
    (P : Parsed → Type ℓ) (stmt : ℕ → ℕ) (len off : ℕ)
    → P (failed comment_error)
    → P (parse_after stmt len (skip_spaces stmt (len + 1) off))
    → P (parse_from stmt len off)
    → P (parse_lead stmt len (some off))
unfolding parse_lead
lead_rule P stmt len off f g h =
    if_rule P ((stmt off == b'/') && (stmt (off + 1) == b'*')) _ _
      (λ _. Option_rule P (skip_comment1 stmt off len) _ _ (λ _. f) λ _ _. g)
      λ _.
        if_rule P
          (((stmt off == b'/') && (stmt (off + 1) == b'/'))
            || ((stmt off == b'-') && (stmt (off + 1) == b'-')))
          _ _ (λ _. g) λ _. h

parse_lead-Placed : (stmt : ℕ → ℕ) (len : ℕ) (o : Option ℕ) → Good stmt len (parse_lead stmt len o)
parse_lead-Placed stmt len none = unfold parse_lead in failed-Placed stmt len stuck
parse_lead-Placed stmt len (some off) =
    lead_rule (Good stmt len) stmt len off (failed-Placed stmt len comment_error)
      (parse_after-Placed stmt len _) (parse_from-Placed stmt len off)

-- Whatever the outcome of `parseSQL`, each parameter that it returns is a question mark, or a
-- colon with the longest run of letters and digits behind it, at most 30 bytes together; all lie
-- within the statement, in order and apart.
pub parse_sql-Placed :
    (stmt : ℕ → ℕ) (len : ℕ) → Placed stmt len 0 (parse_sql stmt len).scanned.params
unfolding parse_sql
parse_sql-Placed stmt len = parse_lead-Placed stmt len (skip_spaces stmt (len + 1) 0)

abbrev Ends : Parsed → Type 0
Ends r = r.scanned.status ≢ stuck

parse_from-Ends : (stmt : ℕ → ℕ) (len off : ℕ) → Ends (parse_from stmt len off)
unfolding parse_from
parse_from-Ends stmt len off =
    scan_ends stmt len (len + 1) (get_sql_type stmt off).1 (omega arith) (omega arith)

failed-Ends : (e : Status) → e ≢ stuck → Ends (failed e)
unfolding failed
failed-Ends e h = h

parse_after-Ends :
    (stmt : ℕ → ℕ) (len off end : ℕ) (o : Option ℕ) → o ≡ some end → Ends (parse_after stmt len o)
unfolding parse_after
parse_after-Ends stmt len off end o e = rw e (parse_from-Ends stmt len end)

parse_lead-Ends :
    (stmt : ℕ → ℕ) (len off : ℕ) (o : Option ℕ)
    → stmt len ≡ 0
    → off ≤ len
    → o ≡ some off
    → Ends (parse_lead stmt len o)
parse_lead-Ends stmt len off o nul h e =
    let (end, after, _) = skip_spaces_total stmt len (len + 1) off nul h (omega arith) in
    rw e (
      lead_rule Ends stmt len off (failed-Ends comment_error (λ f. cc))
        (parse_after-Ends stmt len off end _ after) (parse_from-Ends stmt len off))

-- A statement with a zero behind its bytes is parsed to the end: no loop of `parseSQL` runs out
-- of its fuel, so the outcome is success or one of the source's errors.
pub parse_sql_ends :
    (stmt : ℕ → ℕ) (len : ℕ) → stmt len ≡ 0 → (parse_sql stmt len).scanned.status ≢ stuck
unfolding parse_sql
parse_sql_ends stmt len nul =
    let (off, e, v) = skip_spaces_total stmt len (len + 1) 0 nul (omega arith) (omega arith) in
    parse_lead-Ends stmt len off _ nul (skipped_le stmt len off nul v) e
