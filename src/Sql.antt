-- ===== src/Sql.antt =====
-- The statement scanner of ksources/utl_stmt.cpp: the kind of a statement and its parameters.
-- A statement is the memory behind a pointer, a byte for each offset; what lies at the length and
-- beyond can be read, as the source reads it. Loops count down the bytes that are left, except the
-- one that skips blanks, which does not look at the length and takes fuel.
pub mod Ctype
pub mod Skip
pub mod Parse
pub mod Quoted
pub mod Words
pub mod Kinds
pub mod Leading
mod Tests
pub mod Params
pub mod Rounds
use nihao_github_io.Base.{
  ℕ, zero, suc, ◌+◌, ◌-◌, Bool, true, false, ◌&&◌, ◌||◌, Option, none, some, List, [], ◌∷◌, ltb,
  ◌==◌, if◌then◌else◌,
}
use Ctype.{is_space, is_alnum, Sign, less, same, more, astrnicmp}
use Skip.{skip_quoted, skip_comment1, skip_comment2}

-- The constants `KCI_STMT_…`.
pub data SqlType : Type 0 where
  unknown select update delete insert create drop alter begin declare call : SqlType

pub record Param : Type 0 where
  pub off : ℕ
  pub len : ℕ

-- The outcome: success, one of the errors, or `stuck` for a loop that ran out of fuel.
pub data Status : Type 0 where
  success comment_error name_too_long string_error ident_error stuck : Status

unfoldable pub is_same : Sign → Bool
is_same same = true
is_same _ = false

-- `!astrnicmp(stmt + off, word, len)`.
unfoldable pub starts : (ℕ → ℕ) → ℕ → List ℕ → ℕ → Bool
unfolding is_same astrnicmp
starts stmt off word len = is_same (astrnicmp (λ i. stmt (off + i)) word len)

-- `getSQLType`: the kind, and the offset behind its keyword.
unfoldable pub get_sql_type : (ℕ → ℕ) → ℕ → SqlType × ℕ
unfolding starts
get_sql_type stmt off =
    if starts stmt off (b'S' ∷ b'E' ∷ b'L' ∷ b'E' ∷ b'C' ∷ b'T' ∷ []) 6
    then (select, off + 6)
    else if starts stmt off (b'I' ∷ b'N' ∷ b'S' ∷ b'E' ∷ b'R' ∷ b'T' ∷ []) 6
    then (insert, off + 6)
    else if starts stmt off (b'U' ∷ b'P' ∷ b'D' ∷ b'A' ∷ b'T' ∷ b'E' ∷ []) 6
    then (update, off + 6)
    else if starts stmt off (b'D' ∷ b'E' ∷ b'L' ∷ b'E' ∷ b'T' ∷ b'E' ∷ []) 6
    then (delete, off + 6)
    else if starts stmt off (b'C' ∷ b'R' ∷ b'E' ∷ b'A' ∷ b'T' ∷ b'E' ∷ []) 6
    then (create, off + 6)
    else if starts stmt off (b'D' ∷ b'R' ∷ b'O' ∷ b'P' ∷ []) 4
    then (drop, off + 4)
    else if starts stmt off (b'A' ∷ b'L' ∷ b'T' ∷ b'E' ∷ b'R' ∷ []) 5
    then (alter, off + 5)
    else if starts stmt off (b'E' ∷ b'X' ∷ b'E' ∷ b'C' ∷ []) 5
    then (call, off + 5)
    else if starts stmt off (b'B' ∷ b'E' ∷ b'G' ∷ b'I' ∷ b'N' ∷ []) 5
    then (begin, off + 5)
    else if starts stmt off (b'D' ∷ b'E' ∷ b'C' ∷ b'L' ∷ b'A' ∷ b'R' ∷ b'E' ∷ []) 7
    then (declare, off + 7)
    else (unknown, off)

-- `while (isspace(stmt[off])) off++;`
unfoldable pub skip_spaces : (ℕ → ℕ) → ℕ → ℕ → Option ℕ
unfolding is_space
skip_spaces stmt zero off = none
skip_spaces stmt (suc fuel) off =
    let rest = skip_spaces stmt fuel (off + 1) in if is_space (stmt off) then rest else some off

-- `while (isalnum(stmt[off]) && off < stmt_len) off++;` with that many bytes left.
unfoldable pub name_end : (ℕ → ℕ) → ℕ → ℕ → ℕ
unfolding is_alnum
name_end stmt zero off = off
name_end stmt (suc left) off =
    let rest = name_end stmt left (off + 1) in if is_alnum (stmt off) then rest else off

-- One round of the main loop: move on, add a parameter and move on, or give up.
pub data Round : Type 0 where
  move : ℕ → Round
  add : Param → ℕ → Round
  fail : Status → Round

unfoldable pub move_or : Status → Option ℕ → Round
move_or e none = fail e
move_or e (some off) = move off

unfoldable pub name_round : ℕ → ℕ → Round
name_round off end =
    if ltb 30 (end - off)
    then fail name_too_long
    else add (record { off = off; len = end - off }) end

unfoldable pub round : (ℕ → ℕ) → ℕ → ℕ → Round
round stmt len off =
    if stmt off == b'?'
    then add (record { off = off; len = 1 }) (off + 1)
    else if stmt off == b':'
    then name_round off (name_end stmt (len - (off + 1)) (off + 1))
    else if stmt off == 39
    then move_or string_error (skip_quoted 39 stmt off len)
    else if stmt off == 34
    then move_or ident_error (skip_quoted 34 stmt off len)
    else if (stmt off == b'/') && ltb off (len - 1)
    then (if stmt (off + 1) == b'*'
        then move_or comment_error (skip_comment1 stmt off len)
        else if stmt (off + 1) == b'/'
        then move (skip_comment2 stmt off len)
        else move (off + 1))
    else if (stmt off == b'-') && ltb off (len - 1)
    then (if stmt (off + 1) == b'-' then move (skip_comment2 stmt off len) else move (off + 1))
    else move (off + 1)

pub record Scan : Type 0 where
  pub status : Status
  pub params : List Param

unfoldable pub with_param : Param → Scan → Scan
with_param p r = record r { params = p ∷ r.params }

-- The main loop of `parseSQL`, from an offset to the end.
unfoldable pub scan : (ℕ → ℕ) → ℕ → ℕ → ℕ → Scan
unfolding round with_param
scan stmt len zero off = record { status = stuck; params = [] }
scan stmt len (suc fuel) off = elim (ltb off len) [
  | false ↦ record { status = success; params = [] }
  | true ↦ elim (round stmt len off) [
    | move next ↦ scan stmt len fuel next
    | add p next ↦ with_param p (scan stmt len fuel next)
    | fail e ↦ record { status = e; params = [] }
  ]
]

pub record Parsed : Type 0 where
  pub sql_type : Option SqlType
  pub scanned : Scan

unfoldable pub failed : Status → Parsed
failed e = record { sql_type = none; scanned = record { status = e; params = [] } }

-- From the kind on. Each round of the main loop moves on, so `len + 1` rounds are enough.
unfoldable pub parse_from : (ℕ → ℕ) → ℕ → ℕ → Parsed
unfolding get_sql_type scan
parse_from stmt len off =
    let (kind, next) = get_sql_type stmt off in
    record { sql_type = some kind; scanned = scan stmt len (len + 1) next }

unfoldable pub parse_after : (ℕ → ℕ) → ℕ → Option ℕ → Parsed
unfolding parse_from failed
parse_after stmt len none = failed stuck
parse_after stmt len (some off) = parse_from stmt len off

-- A leading comment is looked at, but the offset behind it is dropped.
unfoldable pub parse_lead : (ℕ → ℕ) → ℕ → Option ℕ → Parsed
unfolding parse_after skip_spaces skip_comment1
parse_lead stmt len none = failed stuck
parse_lead stmt len (some off) =
    if (stmt off == b'/') && (stmt (off + 1) == b'*')
    then elim (skip_comment1 stmt off len) [
      | none ↦ failed comment_error
      | some _ ↦ parse_after stmt len (skip_spaces stmt (len + 1) off)
    ]
    else if ((stmt off == b'/') && (stmt (off + 1) == b'/'))
        || ((stmt off == b'-') && (stmt (off + 1) == b'-'))
    then parse_after stmt len (skip_spaces stmt (len + 1) off)
    else parse_from stmt len off

-- `parseSQL`.
unfoldable pub parse_sql : (ℕ → ℕ) → ℕ → Parsed
unfolding parse_lead
parse_sql stmt len = parse_lead stmt len (skip_spaces stmt (len + 1) 0)
