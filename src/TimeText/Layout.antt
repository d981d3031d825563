-- ===== src/TimeText/Layout.antt =====
-- Formats that name the whole date and time, for `tm2str` and `str2tm` of ksources/utl_time.cpp.
use nihao_github_io.Base.{
  ℕ, zero, suc, Bool, true, false, not, ◌&&◌, ◌||◌, Option, none, some, List, [], ◌∷◌, ◌==◌,
}
use nihao_github_io.TimeText.{Lexed, token, word, stop, out_of_table, next_tfmt, is_separator}

-- A token of a format, or the bytes between two.
pub data Item : Type 0 where
  field : ℕ → Item
  between : List ℕ → Item

unfoldable pub prepend : Item → Option (List Item) → Option (List Item)
prepend i none = none
prepend i (some its) = some (i ∷ its)

unfoldable pub item_of : (List ℕ → Option (List Item)) → Lexed → Option (List Item)
unfolding prepend
item_of go stop = some []
item_of go out_of_table = none
item_of go (token k rest) = prepend (field k) (go rest)
item_of go (word w rest) = prepend (between w) (go rest)

-- The items of a format, at most `n`.
unfoldable pub items : ℕ → List ℕ → Option (List Item)
unfolding item_of
items zero fmt = none
items (suc n) fmt = item_of (items n) (next_tfmt fmt)

-- The tokens yyyy, mm, dd, hh24, mi and ss.
unfoldable pub is_part : ℕ → Bool
is_part k = (k == 25) || ((k == 12) || ((k == 6) || ((k == 10) || ((k == 11) || (k == 16)))))

unfoldable pub seen_in : ℕ → List ℕ → Bool
seen_in k [] = false
seen_in k (j ∷ js) = (k == j) || seen_in k js

unfoldable pub all_separators : List ℕ → Bool
unfolding is_separator
all_separators [] = true
all_separators (c ∷ cs) = is_separator c && all_separators cs

unfoldable pub is_between : List ℕ → Bool
unfolding all_separators
is_between [] = false
is_between (c ∷ cs) = all_separators (c ∷ cs)

-- Seconds and a point are not followed by a fraction.
unfoldable pub no_point : List Item → Bool
no_point [] = true
no_point (field k ∷ its) = true
no_point (between [] ∷ its) = false
no_point (between (c ∷ cs) ∷ its) = not (c == b'.')

unfoldable pub no_word : List Item → Bool
no_word [] = true
no_word (field k ∷ its) = true
no_word (between w ∷ its) = false

-- Each of the six tokens once, with separators between them or none.
unfoldable pub is_layout : List ℕ → List Item → Bool
unfolding is_part seen_in is_between no_point no_word
is_layout seen [] =
    seen_in 25 seen
    && (seen_in 12 seen
        && (seen_in 6 seen && (seen_in 10 seen && (seen_in 11 seen && seen_in 16 seen))))
is_layout seen (field k ∷ its) =
    is_part k && (not (seen_in k seen) && (no_point its && is_layout (k ∷ seen) its))
is_layout seen (between w ∷ its) = is_between w && (no_word its && is_layout seen its)
