-- ===== src/TimeText/IntervalText.antt =====
-- A date that `tm2str` of ksources/utl_time.cpp writes, read by `str2Interval`.
use nihao_github_io.Base.{
  ℕ, zero, suc, ◌+◌, ◌*◌, ◌/◌, ◌%◌, ◌≡◌, refl, sym, ap, subst, ◌∙◌, true, false, Option, some, List,
  [], ◌∷◌, ◌++◌, append_assoc, length, arith,
}
use nihao_github_io.Calendar.{DateTime}
use nihao_github_io.TimeText.{Lexed, token, word, stop, out_of_table, next_tfmt, is_separator}
use nihao_github_io.TimeText.Scan.{
  Fields, fresh, number, read_digits, read_y4, read_mm, read_dd, read_hh, read_mi, read_ss,
}
use nihao_github_io.TimeText.Parse.{Tokens, ended, format_or}
use nihao_github_io.TimeText.Print.{printed, tm2str}
use nihao_github_io.TimeText.Layout.{
  Item, field, between, item_of, items, is_layout, is_between, no_word, seen_in, all_separators,
}
use nihao_github_io.TimeText.Fields.{
  Fits, part, fields_at, Part, year4_part, month_part, day_part, hour_part, minute_part,
  second_part, read_token-part,
}
use nihao_github_io.TimeText.Between.{
  at_number, both_true, skip_to_digit_between, skip_to_digit-at_number, skip_blanks-at_number,
}
use nihao_github_io.TimeText.Written.{text, items_step, is_layout-IsField}
use nihao_github_io.TimeText.ReadBack.{
  all_fields, fields_at_end, between-separators, text_cons, part-IsNumber, at_number-IsNumber,
  text-no_point, text-at_number,
}
use nihao_github_io.TimeText.RoundTrip.{IsTime, IsWhole, fits, tm2str-text}
use nihao_github_io.TimeText.Interval.{
  interval, interval_token, interval_one, interval_tokens, interval_end, str2interval,
  interval_token-read_token,
}

-- A number is found behind separators.
number_behind :
    (n v : ℕ) (w t : List ℕ)
    → all_separators w ≡ true
    → at_number t ≡ true
    → number n v (w ++ t) ≡ number n v t
unfolding number
number_behind n v w t s h =
    ap (read_digits n v) (skip_to_digit_between w t s h ∙ sym (skip_to_digit-at_number t h))

interval_token_behind :
    (k : ℕ) (f : Fields) (w t : List ℕ)
    → Part k
    → all_separators w ≡ true
    → at_number t ≡ true
    → interval_token k f (w ++ t) ≡ interval_token k f t
unfolding interval_token read_y4 read_mm read_dd read_hh read_mi read_ss
interval_token_behind k f w t year4_part s h = rw (number_behind 4 f.y w t s h)
interval_token_behind k f w t month_part s h = rw (number_behind 2 0 w t s h)
interval_token_behind k f w t day_part s h = rw (number_behind 2 0 w t s h)
interval_token_behind k f w t hour_part s h = rw (number_behind 2 f.h w t s h)
interval_token_behind k f w t minute_part s h = rw (number_behind 2 f.mi w t s h)
interval_token_behind k f w t second_part s h = rw (number_behind 2 f.s w t s h)

-- The loop of `str2Interval`, with separators before the text.
abbrev ReadsInterval :
    DateTime → ℕ → (List ℕ → Option (List Item)) → (List ℕ → List ℕ → Fields → Tokens) → Type 0
ReadsInterval dt y count go =
    (fmt : List ℕ) (its : List Item) (seen w : List ℕ)
    → count fmt ≡ some its
    → is_layout seen its ≡ true
    → all_separators w ≡ true
    → interval_end (go (w ++ text dt y its) fmt (fields_at dt y seen))
      ≡ interval_end (ended (all_fields dt y) [])

all_separators-append :
    (w v : List ℕ)
    → all_separators w ≡ true
    → all_separators v ≡ true
    → all_separators (w ++ v) ≡ true
unfolding all_separators
all_separators-append [] v a b = b
all_separators-append (c ∷ cs) v a b =
    let (one, more) = both_true (is_separator c) (all_separators cs) a in
    rw (one, all_separators-append cs v more b) refl

interval_one-text :
    (dt : DateTime) (y : ℕ)
    → Fits dt y
    → (count : List ℕ → Option (List Item)) (go : List ℕ → List ℕ → Fields → Tokens)
    → ReadsInterval dt y count go
    → (r : Lexed) (its : List Item) (seen w : List ℕ) → item_of count r ≡ some its
    → is_layout seen its ≡ true
    → all_separators w ≡ true
    → interval_end (interval_one go (w ++ text dt y its) (fields_at dt y seen) r)
      ≡ interval_end (ended (all_fields dt y) [])
unfolding interval_one interval_end item_of text is_layout
interval_one-text dt y v count go reads stop its seen w e h s =
    let nothing : its ≡ [] = cc in
    rw (fields_at_end dt y seen (subst (λ its. is_layout seen its ≡ true) nothing h)) refl
interval_one-text dt y v count go reads out_of_table its seen w e h s = cc
interval_one-text dt y v count go reads (token k rest) its seen w e h s =
    let (js, e', same) = items_step (field k) (count rest) its e in
    let f = is_layout-IsField seen k js (subst (λ its. is_layout seen its ≡ true) same h) in
    let point = text-no_point dt y (k ∷ seen) js v f.others f.no_fraction in
    let n = at_number-IsNumber (part dt y k) (text dt y js) (part-IsNumber dt y k v f.a_part) in
    rw
      (
        same,
        interval_token_behind k (fields_at dt y seen) w (part dt y k ++ text dt y js) f.a_part s n,
        interval_token-read_token k (fields_at dt y seen) (part dt y k ++ text dt y js),
        read_token-part 0 6 dt y k seen (text dt y js) v f.a_part f.new point,
      )
      (reads rest js (k ∷ seen) [] e' f.others (unfold all_separators in refl))
interval_one-text dt y v count go reads (word w' rest) its seen w e h s =
    let (js, e', same) = items_step (between w') (count rest) its e in
    let h1 = subst (λ its. is_layout seen its ≡ true) same h in
    let (a, h2) = both_true (is_between w') _ h1 in
    let (b, c) = both_true (no_word js) (is_layout seen js) h2 in
    rw (same, ← append_assoc w w' (text dt y js))
      (reads rest js seen (w ++ w') e' c (all_separators-append w w' s (between-separators w' a)))

interval_tokens_cons :
    (n c : ℕ) (str cs fmt : List ℕ) (f : Fields)
    → str ≡ c ∷ cs
    → interval_tokens (suc n) str fmt f ≡ interval_one (interval_tokens n) str f (next_tfmt fmt)
unfolding interval_tokens
interval_tokens_cons n c str cs fmt f e = rw e refl

-- Before an item the text is not at its end.
behind_cons :
    (dt : DateTime) (y : ℕ) (seen w : List ℕ) (i : Item) (its : List Item)
    → Fits dt y
    → is_layout seen (i ∷ its) ≡ true
    → (c : ℕ) × (cs : List ℕ) × (w ++ text dt y (i ∷ its) ≡ c ∷ cs)
behind_cons dt y seen [] i its v h = text_cons dt y seen i its v h
behind_cons dt y seen (c ∷ cs) i its v h = (c, cs ++ text dt y (i ∷ its), refl)

interval_tokens-text :
    (dt : DateTime) (y n : ℕ) → Fits dt y → ReadsInterval dt y (items n) (interval_tokens n)
unfolding items
interval_tokens-text dt y zero v fmt its seen w e h s = cc
interval_tokens-text dt y (suc n) v fmt [] seen [] e h s =
    unfold interval_tokens text in ap (λ f. interval_end (ended f [])) (fields_at_end dt y seen h)
interval_tokens-text dt y (suc n) v fmt [] seen (c ∷ cs) e h s =
    ap interval_end (
      interval_tokens_cons n c ((c ∷ cs) ++ text dt y []) (cs ++ text dt y []) fmt
        (fields_at dt y seen) refl)
    ∙ interval_one-text dt y v (items n) (interval_tokens n) (interval_tokens-text dt y n v)
        (next_tfmt fmt) [] seen (c ∷ cs) e h s
interval_tokens-text dt y (suc n) v fmt (i ∷ its) seen w e h s =
    let (c, cs, whole) = behind_cons dt y seen w i its v h in
    ap interval_end
      (interval_tokens_cons n c (w ++ text dt y (i ∷ its)) cs fmt (fields_at dt y seen) whole)
    ∙ interval_one-text dt y v (items n) (interval_tokens n) (interval_tokens-text dt y n v)
        (next_tfmt fmt) (i ∷ its) seen w e h s

interval_fields :
    (dt : DateTime) (y : ℕ)
    → interval_end (ended (all_fields dt y) []) ≡ interval (dt.mday * 86400 + dt.s) 0
unfolding interval_end
interval_fields dt y = ap (λ s. interval s 0) (seconds dt.mday dt.s)
  where
    seconds :
        (d s : ℕ) → d * 24 * 3600 + s / 60 / 60 * 3600 + s / 60 % 60 * 60 + s % 60 ≡ d * 86400 + s
    seconds d s = omega arith

-- In a format that names the whole date and time, `str2Interval` reads what `tm2str` writes for a
-- date of the years 1 to 9999 as the days of its day of the month and the seconds of its time;
-- the year and the month do not count.
pub str2interval-tm2str :
    (float_text : ℕ → ℕ → ℕ → List ℕ) (dt : DateTime) (y : ℕ) (old fmt : List ℕ)
    → IsTime dt y
    → IsWhole (format_or fmt)
    → (t : List ℕ) × (tm2str float_text dt old fmt ≡ printed t)
      × (str2interval t fmt ≡ interval (dt.mday * 86400 + dt.s) 0)
unfolding str2interval fresh fields_at seen_in
str2interval-tm2str float_text dt y old fmt v w =
    let f = format_or fmt in
    (
      text dt y w.its,
      tm2str-text float_text dt y old fmt v w,
      ap (λ t. interval_end (interval_tokens (length f + 1) t f (fresh false)))
            (skip_blanks-at_number (text dt y w.its)
              (text-at_number dt y [] w.its (fits dt y v) w.layout w.number_first))
          ∙ interval_tokens-text dt y (length f + 1) (fits dt y v) f w.its [] [] w.lexed w.layout
              (unfold all_separators in refl)
          ∙ interval_fields dt y,
    )
