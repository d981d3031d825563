-- ===== src/Sql/Leading.antt =====
-- What `parseSQL` makes of a statement that starts with a comment.
use nihao_github_io.Base.{
  ℕ, zero, suc, ◌+◌, ◌≤◌, ◌<◌, ◌≡◌, refl, sym, ◌∙◌, ap, ◌⊎◌, inl, inr, false, none, some, arith,
}
use native.Mathlib.Decide.{dec_lt}
use nihao_github_io.Sql.{
  unknown, Parsed, failed, comment_error, parse_from, parse_after, parse_lead, parse_sql,
  skip_spaces,
}
use nihao_github_io.Sql.Ctype.{is_space}
use nihao_github_io.Sql.Kinds.{get_sql_type_below}
use nihao_github_io.Sql.Parse.{IsSkipped, lead_rule}

-- No kind, or the kind "unknown".
abbrev pub IsUnknown : Parsed → Type 0
IsUnknown r = (r.sql_type ≡ none) ⊎ (r.sql_type ≡ some unknown)

parse_from_below :
    (stmt : ℕ → ℕ) (len off : ℕ)
    → ((i : ℕ) → stmt i < 256)
    → stmt off < b'A'
    → IsUnknown (parse_from stmt len off)
unfolding parse_from
parse_from_below stmt len off h lt = inr (ap (λ r. some r.0) (get_sql_type_below stmt off h lt))

failed-IsUnknown : IsUnknown (failed comment_error)
unfolding failed
failed-IsUnknown = inl refl

-- The first byte that is no blank is where the blanks stop.
skip_spaces_at :
    (stmt : ℕ → ℕ) (fuel off end : ℕ)
    → IsSkipped stmt off end
    → end < off + fuel
    → skip_spaces stmt fuel off ≡ some end
unfolding skip_spaces
skip_spaces_at stmt zero off end v h = absurd (omega (arith, v.after))
skip_spaces_at stmt (suc fuel) off end v h = elim (dec_lt off end) [
  | yes c ↦ rw (v.blank off (omega arith) c) (
      skip_spaces_at stmt fuel (off + 1) end
        (record { after = omega arith; blank = λ i a b. v.blank i (omega arith) b; stop = v.stop })
        (omega arith))
  | no c ↦
      let e : end ≡ off = omega (arith, v.after) in
      rw (ap (λ x. is_space (stmt x)) (sym e) ∙ v.stop) (ap some (sym e))
]

here : (stmt : ℕ → ℕ) (off : ℕ) → is_space (stmt off) ≡ false → IsSkipped stmt off off
here stmt off e = record { after = omega arith; blank = λ i a b. absurd (omega arith); stop = e }

parse_lead_below :
    (stmt : ℕ → ℕ) (len off : ℕ)
    → ((i : ℕ) → stmt i < 256)
    → is_space (stmt off) ≡ false
    → stmt off < b'A'
    → IsUnknown (parse_lead stmt len (some off))
unfolding parse_after
parse_lead_below stmt len off h stay lt =
    let e : skip_spaces stmt (len + 1) off ≡ some off =
      skip_spaces_at stmt (len + 1) off off (here stmt off stay) (omega arith) in
    lead_rule IsUnknown stmt len off failed-IsUnknown (rw e (parse_from_below stmt len off h lt))
      (parse_from_below stmt len off h lt)

-- A comment starts at an offset.
abbrev pub Comment : (ℕ → ℕ) → ℕ → Type 0
Comment stmt off =
    ((stmt off ≡ b'/') × ((stmt (off + 1) ≡ b'*') ⊎ (stmt (off + 1) ≡ b'/')))
    ⊎ ((stmt off ≡ b'-') × (stmt (off + 1) ≡ b'-'))

Comment-below : (stmt : ℕ → ℕ) (off : ℕ) → Comment stmt off → stmt off < b'A'
Comment-below stmt off (inl v) = omega (arith, v.0)
Comment-below stmt off (inr v) = omega (arith, v.0)

-- A statement of bytes with a comment in front, behind blanks or not, never gets the kind of its
-- keyword: `parseSQL` looks for the keyword where the comment starts, so the result has no kind
-- or the kind "unknown", whatever stands behind the comment.
pub parse_sql-Comment :
    (stmt : ℕ → ℕ) (len off : ℕ)
    → ((i : ℕ) → stmt i < 256)
    → off ≤ len
    → IsSkipped stmt 0 off
    → Comment stmt off
    → IsUnknown (parse_sql stmt len)
unfolding parse_sql
parse_sql-Comment stmt len off h le v c =
    rw (skip_spaces_at stmt (len + 1) 0 off v (omega arith))
      (parse_lead_below stmt len off h v.stop (Comment-below stmt off c))
