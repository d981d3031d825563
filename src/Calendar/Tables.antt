-- ===== src/Calendar/Tables.antt =====
-- The constant tables of ksources/utl_time.cpp.
use nihao_github_io.Base.{ℕ, zero, suc, ◌+◌, List, [], ◌∷◌, ◌++◌}

-- `{ m, i }, { m, i + 1 }, …`, `n` entries: the rows of one month.
unfoldable pub month_rows : ℕ → ℕ → ℕ → List (ℕ × ℕ)
month_rows m zero i = []
month_rows m (suc n) i = (m, i) ∷ month_rows m n (i + 1)

unfoldable pub year_rows : ℕ → List ℕ → List (ℕ × ℕ)
unfolding month_rows
year_rows m [] = []
year_rows m (n ∷ ns) = month_rows m n 1 ++ year_rows (m + 1) ns

-- The tables `day2md` and `day2md_rn` list month by month what is generated here from the lengths.
unfoldable pub day2md : List (ℕ × ℕ)
unfolding year_rows
day2md = year_rows 1 (31 ∷ 28 ∷ 31 ∷ 30 ∷ 31 ∷ 30 ∷ 31 ∷ 31 ∷ 30 ∷ 31 ∷ 30 ∷ 31 ∷ [])

unfoldable pub day2md_rn : List (ℕ × ℕ)
unfolding year_rows
day2md_rn = year_rows 1 (31 ∷ 29 ∷ 31 ∷ 30 ∷ 31 ∷ 30 ∷ 31 ∷ 31 ∷ 30 ∷ 31 ∷ 30 ∷ 31 ∷ [])

-- The two rows of `mtod`: the days of the year before each month.
unfoldable pub mtod : List ℕ
mtod = 0 ∷ 31 ∷ 59 ∷ 90 ∷ 120 ∷ 151 ∷ 181 ∷ 212 ∷ 243 ∷ 273 ∷ 304 ∷ 334 ∷ 365 ∷ []

unfoldable pub mtod_rn : List ℕ
mtod_rn = 0 ∷ 31 ∷ 60 ∷ 91 ∷ 121 ∷ 152 ∷ 182 ∷ 213 ∷ 244 ∷ 274 ∷ 305 ∷ 335 ∷ 366 ∷ []

-- The lengths of the months of a common year; `month_days[0]` is not used.
unfoldable pub month_days : List ℕ
month_days = 0 ∷ 31 ∷ 28 ∷ 31 ∷ 30 ∷ 31 ∷ 30 ∷ 31 ∷ 31 ∷ 30 ∷ 31 ∷ 30 ∷ 31 ∷ []
