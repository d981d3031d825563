-- ===== src/Sql/Tests.antt =====
-- The scanner on concrete statements.
use nihao_github_io.Base.{
  ℕ, zero, suc, ◌+◌, ◌<◌, ◌≡◌, ◌≢◌, ◌↔◌, refl, inl, some, List, [], ◌∷◌, get_or, arith,
}
use nihao_github_io.Sql.{
  unknown, select, call, success, stuck, parse_sql, get_sql_type, name_round, name_end,
}
use nihao_github_io.Sql.Ctype.{is_space}
use nihao_github_io.Sql.Skip.{skip_quoted}
use nihao_github_io.Sql.Quoted.{Quoted, skip_quoted-Quoted}
use nihao_github_io.Sql.Kinds.{IsKind, get_sql_type-IsKind}
use nihao_github_io.Sql.Parse.{IsSkipped, parse_sql_ends, parse_sql-Placed}
use nihao_github_io.Sql.Leading.{IsUnknown, parse_sql-Comment}
use nihao_github_io.Sql.Params.{Placed}

-- A statement as the memory that holds it: zeros behind its bytes.
abbrev memory : List ℕ → ℕ → ℕ
memory s i = get_or s i 0

abbrev Bytes : List ℕ → Type 0
Bytes [] = Unit {0}
Bytes (c ∷ cs) = (c < 256) × Bytes cs

memory_byte : (s : List ℕ) (i : ℕ) → Bytes s → memory s i < 256
memory_byte [] i v = omega arith
memory_byte (c ∷ cs) zero v = v.0
memory_byte (c ∷ cs) (suc i) v = memory_byte cs i v.1

-- select :a,?
abbrev selection : List ℕ
selection = b's' ∷ b'e' ∷ b'l' ∷ b'e' ∷ b'c' ∷ b't' ∷ b' ' ∷ b':' ∷ b'a' ∷ b',' ∷ b'?' ∷ []

-- /**/SELECT
abbrev commented : List ℕ
commented = b'/' ∷ b'*' ∷ b'*' ∷ b'/' ∷ b'S' ∷ b'E' ∷ b'L' ∷ b'E' ∷ b'C' ∷ b'T' ∷ []

selection_parsed : parse_sql (memory selection) 11 ≡ record {
  sql_type = some select;
  scanned = record {
    status = success;
    params = record { off = 7; len = 2 } ∷ record { off = 10; len = 1 } ∷ [];
  };
}
unfolding parse_sql name_round name_end
selection_parsed = refl

parse_sql_ends_example : (parse_sql (memory selection) 11).scanned.status ≢ stuck
parse_sql_ends_example = parse_sql_ends (memory selection) 11 refl

parse_sql-Placed_example :
    Placed (memory selection) 11 0 (parse_sql (memory selection) 11).scanned.params
parse_sql-Placed_example = parse_sql-Placed (memory selection) 11

selection-Bytes : Bytes selection
selection-Bytes = ground arith

get_sql_type-IsKind_example :
    IsKind (λ i. memory selection (0 + i)) 0 (get_sql_type (memory selection) 0)
get_sql_type-IsKind_example =
    get_sql_type-IsKind (memory selection) 0 λ i. memory_byte selection i selection-Bytes

commented-Bytes : Bytes commented
commented-Bytes = ground arith

commented_starts : IsSkipped (memory commented) 0 0
unfolding is_space
commented_starts = record {
  after = omega arith;
  blank = λ i a b. absurd (omega arith);
  stop = refl;
}

parse_sql-Comment_example : IsUnknown (parse_sql (memory commented) 10)
parse_sql-Comment_example =
    parse_sql-Comment (memory commented) 10 0 (λ i. memory_byte commented i commented-Bytes)
      (omega arith) commented_starts (inl (refl, inl refl))

-- 'a\'b' with the quote in the middle escaped.
abbrev escaped : List ℕ
escaped = 39 ∷ b'a' ∷ 92 ∷ 39 ∷ b'b' ∷ 39 ∷ []

skip_quoted-Quoted_example :
    (skip_quoted 39 (memory escaped) 0 6 ≡ some 6) ↔ Quoted 39 (memory escaped) 6 1 6
skip_quoted-Quoted_example = skip_quoted-Quoted 39 (memory escaped) 0 6 6 (omega arith)

-- `EXEC` with a blank behind it is no call, and alone it is one.
exec_runs :
    ((parse_sql (memory (b'E' ∷ b'X' ∷ b'E' ∷ b'C' ∷ b' ' ∷ b'p' ∷ [])) 6).sql_type ≡ some unknown)
    × ((parse_sql (memory (b'E' ∷ b'X' ∷ b'E' ∷ b'C' ∷ [])) 4).sql_type ≡ some call)
unfolding parse_sql
exec_runs = (refl, refl)
