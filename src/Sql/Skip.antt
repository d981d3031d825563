-- ===== src/Sql/Skip.antt =====
-- `skipString`, `skipIdent`, `skipComment1` and `skipComment2` of ksources/utl_stmt.cpp. Each loop
-- counts down `left`, the bytes from the offset to the length; `none` is the source's -1.
use nihao_github_io.Base.{ℕ, zero, suc, ◌+◌, ◌-◌, ◌&&◌, Option, none, some, ◌==◌, if◌then◌else◌}

unfoldable pub skip_quoted_loop : ℕ → (ℕ → ℕ) → ℕ → ℕ → Option ℕ
skip_quoted_loop q stmt zero off = none
skip_quoted_loop q stmt (suc zero) off = if stmt off == q then some (off + 1) else none
skip_quoted_loop q stmt (suc (suc left)) off =
    let escaped = skip_quoted_loop q stmt left (off + 2) in
    let plain = skip_quoted_loop q stmt (suc left) (off + 1) in
    if stmt off == q then some (off + 1) else if stmt off == 92 then escaped else plain

-- `skipString` and `skipIdent`, for the two quotes.
unfoldable pub skip_quoted : ℕ → (ℕ → ℕ) → ℕ → ℕ → Option ℕ
unfolding skip_quoted_loop
skip_quoted q stmt off len = skip_quoted_loop q stmt (len - (off + 1)) (off + 1)

unfoldable pub skip_comment1_loop : (ℕ → ℕ) → ℕ → ℕ → Option ℕ
skip_comment1_loop stmt zero off = none
skip_comment1_loop stmt (suc zero) off = none
skip_comment1_loop stmt (suc (suc left)) off =
    let rest = skip_comment1_loop stmt (suc left) (off + 1) in
    if (stmt off == b'*') && (stmt (off + 1) == b'/') then some (off + 2) else rest

unfoldable pub skip_comment1 : (ℕ → ℕ) → ℕ → ℕ → Option ℕ
unfolding skip_comment1_loop
skip_comment1 stmt off len = skip_comment1_loop stmt (len - (off + 2)) (off + 2)

-- `\r\n`, `\r` or `\n` ends the line.
unfoldable pub skip_comment2_loop : (ℕ → ℕ) → ℕ → ℕ → ℕ
skip_comment2_loop stmt zero off = off
skip_comment2_loop stmt (suc zero) off = off + 1
skip_comment2_loop stmt (suc (suc left)) off =
    let rest = skip_comment2_loop stmt (suc left) (off + 1) in
    if stmt off == 13
    then (if stmt (off + 1) == 10 then off + 2 else off + 1)
    else if stmt off == 10
    then off + 1
    else rest

unfoldable pub skip_comment2 : (ℕ → ℕ) → ℕ → ℕ → ℕ
unfolding skip_comment2_loop
skip_comment2 stmt off len = skip_comment2_loop stmt (len - (off + 2)) (off + 2)
