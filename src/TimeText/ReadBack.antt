-- ===== src/TimeText/ReadBack.antt =====
-- A date that `tm2str` of ksources/utl_time.cpp writes and `str2tm` reads.
use nihao_github_io.Base.{
  ℕ, zero, suc, ◌+◌, ◌/◌, ◌%◌, ◌<◌, ◌≡◌, refl, ap, subst, ◌∙◌, true, false, Option, some, List, [],
  ◌∷◌, ◌++◌, arith,
}
use nihao_github_io.Calendar.{DateTime}
use nihao_github_io.TimeText.{Lexed, token, word, stop, out_of_table, next_tfmt}
use nihao_github_io.TimeText.Scan.{Fields, is_digit}
use nihao_github_io.TimeText.Parse.{Tokens, ended, read_one, read_tokens}
use nihao_github_io.TimeText.Print.{padded}
use nihao_github_io.TimeText.Layout.{
  Item, field, between, item_of, items, is_layout, is_between, no_point, no_word, seen_in,
  all_separators,
}
use nihao_github_io.TimeText.Fields.{
  Fits, part, fields_at, Part, year4_part, month_part, day_part, hour_part, minute_part,
  second_part, read_token-part, no_point_text,
}
use nihao_github_io.TimeText.Digits.{padded2, padded4}
use nihao_github_io.TimeText.Between.{at_number, both_true, skip_between, no_era_between}
use nihao_github_io.TimeText.Written.{text, items_step, is_layout-IsField}

-- The text of a token starts with a digit.
pub record IsNumber (t : List ℕ) : Type 0 where
  pub first : ℕ
  pub others : List ℕ
  pub whole : t ≡ first ∷ others
  pub digit : is_digit first ≡ true

padded2-IsNumber : (n : ℕ) → n < 100 → IsNumber (padded 2 n)
unfolding is_digit
padded2-IsNumber n h = record {
  first = 48 + n / 10;
  others = (48 + n % 10) ∷ [];
  whole = padded2 n h;
  digit = ground arith;
}

padded4-IsNumber : (n : ℕ) → n < 10000 → IsNumber (padded 4 n)
unfolding is_digit
padded4-IsNumber n h = record {
  first = 48 + n / 1000;
  others = (48 + n / 100 % 10) ∷ (48 + n / 10 % 10) ∷ (48 + n % 10) ∷ [];
  whole = padded4 n h;
  digit = ground arith;
}

pub part-IsNumber : (dt : DateTime) (y k : ℕ) → Fits dt y → Part k → IsNumber (part dt y k)
unfolding part
part-IsNumber dt y k v year4_part = padded4-IsNumber y v.year_lt
part-IsNumber dt y k v month_part = padded2-IsNumber dt.month v.month_lt
part-IsNumber dt y k v day_part = padded2-IsNumber dt.mday v.mday_lt
part-IsNumber dt y k v hour_part = padded2-IsNumber (dt.s / 60 / 60) (omega (arith, v.s_lt))
part-IsNumber dt y k v minute_part = padded2-IsNumber (dt.s / 60 % 60) (omega arith)
part-IsNumber dt y k v second_part = padded2-IsNumber (dt.s % 60) (omega arith)

pub at_number-IsNumber : (t rest : List ℕ) → IsNumber t → at_number (t ++ rest) ≡ true
unfolding at_number
at_number-IsNumber t rest n = ap (λ t. at_number (t ++ rest)) n.whole ∙ n.digit

no_point_text-at_number : (t : List ℕ) → at_number t ≡ true → no_point_text t ≡ true
unfolding at_number no_point_text is_digit
no_point_text-at_number [] h = refl
no_point_text-at_number (c ∷ cs) h = ground arith

-- Where no word comes next the text is at a number, or at its end.
pub text-at_number :
    (dt : DateTime) (y : ℕ) (seen : List ℕ) (its : List Item)
    → Fits dt y
    → is_layout seen its ≡ true
    → no_word its ≡ true
    → at_number (text dt y its) ≡ true
unfolding text no_word at_number
text-at_number dt y seen [] v h n = refl
text-at_number dt y seen (field k ∷ its) v h n =
    let f = is_layout-IsField seen k its h in
    at_number-IsNumber (part dt y k) (text dt y its) (part-IsNumber dt y k v f.a_part)
text-at_number dt y seen (between w ∷ its) v h n = cc

pub text-no_point :
    (dt : DateTime) (y : ℕ) (seen : List ℕ) (its : List Item)
    → Fits dt y
    → is_layout seen its ≡ true
    → no_point its ≡ true
    → no_point_text (text dt y its) ≡ true
unfolding text no_point no_point_text no_word
text-no_point dt y seen [] v h n = refl
text-no_point dt y seen (field k ∷ its) v h n =
    no_point_text-at_number (text dt y (field k ∷ its))
      (text-at_number dt y seen (field k ∷ its) v h refl)
text-no_point dt y seen (between [] ∷ its) v h n = cc
text-no_point dt y seen (between (c ∷ cs) ∷ its) v h n = n

-- The whole date in the variables of a pass.
abbrev pub all_fields : DateTime → ℕ → Fields
all_fields dt y = record {
  y = y;
  m = dt.month;
  d = dt.mday;
  h = dt.s / 60 / 60;
  mi = dt.s / 60 % 60;
  s = dt.s % 60;
  us = 0;
  y2_as_y4 = false;
}

pub fields_at_end :
    (dt : DateTime) (y : ℕ) (seen : List ℕ)
    → is_layout seen [] ≡ true
    → fields_at dt y seen ≡ all_fields dt y
unfolding is_layout fields_at
fields_at_end dt y seen h =
    let (a, h1) = both_true (seen_in 25 seen) _ h in
    let (b, h2) = both_true (seen_in 12 seen) _ h1 in
    let (c, h3) = both_true (seen_in 6 seen) _ h2 in
    let (d, h4) = both_true (seen_in 10 seen) _ h3 in
    let (e, f) = both_true (seen_in 11 seen) (seen_in 16 seen) h4 in rw (a, b, c, d, e, f)

-- The loop of `str2tm`.
abbrev pub ReadsText :
    DateTime → ℕ → (List ℕ → Option (List Item)) → (List ℕ → List ℕ → Fields → Tokens) → Type 0
ReadsText dt y count go =
    (fmt : List ℕ) (its : List Item) (seen : List ℕ)
    → count fmt ≡ some its
    → is_layout seen its ≡ true
    → go (text dt y its) fmt (fields_at dt y seen) ≡ ended (all_fields dt y) []

pub between-separators : (w : List ℕ) → is_between w ≡ true → all_separators w ≡ true
unfolding is_between
between-separators [] h = cc
between-separators (c ∷ cs) h = h

read_one-text :
    (this_year scale : ℕ) (dt : DateTime) (y : ℕ)
    → Fits dt y
    → (count : List ℕ → Option (List Item)) (go : List ℕ → List ℕ → Fields → Tokens)
    → ReadsText dt y count go
    → (r : Lexed) (its : List Item) (seen : List ℕ) → item_of count r ≡ some its
    → is_layout seen its ≡ true
    → read_one this_year scale go (text dt y its) (fields_at dt y seen) r
      ≡ ended (all_fields dt y) []
unfolding read_one item_of text is_layout
read_one-text this_year scale dt y v count go reads stop its seen e h =
    let nothing : its ≡ [] = cc in
    rw (nothing, fields_at_end dt y seen (subst (λ its. is_layout seen its ≡ true) nothing h))
read_one-text this_year scale dt y v count go reads out_of_table its seen e h = cc
read_one-text this_year scale dt y v count go reads (token k rest) its seen e h =
    let (js, e', same) = items_step (field k) (count rest) its e in
    let f = is_layout-IsField seen k js (subst (λ its. is_layout seen its ≡ true) same h) in
    let point = text-no_point dt y (k ∷ seen) js v f.others f.no_fraction in
    rw (same, read_token-part this_year scale dt y k seen (text dt y js) v f.a_part f.new point)
      (reads rest js (k ∷ seen) e' f.others)
read_one-text this_year scale dt y v count go reads (word w rest) its seen e h =
    let (js, e', same) = items_step (between w) (count rest) its e in
    let h1 = subst (λ its. is_layout seen its ≡ true) same h in
    let (a, h2) = both_true (is_between w) _ h1 in
    let (b, c) = both_true (no_word js) (is_layout seen js) h2 in
    let s = between-separators w a in
    let n = text-at_number dt y seen js v c b in
    rw (same, no_era_between w (text dt y js) s n, skip_between w (text dt y js) s n)
      (reads rest js seen e' c)

read_tokens_cons :
    (this_year scale n c : ℕ) (str cs fmt : List ℕ) (f : Fields)
    → str ≡ c ∷ cs
    → read_tokens this_year scale (suc n) str fmt f
      ≡ read_one this_year scale (read_tokens this_year scale n) str f (next_tfmt fmt)
unfolding read_tokens
read_tokens_cons this_year scale n c str cs fmt f e = rw e refl

pub text_cons :
    (dt : DateTime) (y : ℕ) (seen : List ℕ) (i : Item) (its : List Item)
    → Fits dt y
    → is_layout seen (i ∷ its) ≡ true
    → (c : ℕ) × (cs : List ℕ) × (text dt y (i ∷ its) ≡ c ∷ cs)
unfolding text is_layout is_between
text_cons dt y seen (field k) its v h =
    let n = part-IsNumber dt y k v (is_layout-IsField seen k its h).a_part in
    (n.first, n.others ++ text dt y its, ap (λ t. t ++ text dt y its) n.whole)
text_cons dt y seen (between []) its v h = cc
text_cons dt y seen (between (c ∷ cs)) its v h = (c, cs ++ text dt y its, refl)

pub read_tokens-text :
    (this_year scale : ℕ) (dt : DateTime) (y n : ℕ)
    → Fits dt y
    → ReadsText dt y (items n) (read_tokens this_year scale n)
unfolding items
read_tokens-text this_year scale dt y zero v fmt its seen e h = cc
read_tokens-text this_year scale dt y (suc n) v fmt [] seen e h =
    unfold read_tokens text in ap (λ f. ended f []) (fields_at_end dt y seen h)
read_tokens-text this_year scale dt y (suc n) v fmt (i ∷ its) seen e h =
    let (c, cs, whole) = text_cons dt y seen i its v h in
    read_tokens_cons this_year scale n c (text dt y (i ∷ its)) cs fmt (fields_at dt y seen) whole
    ∙ read_one-text this_year scale dt y v (items n) (read_tokens this_year scale n)
        (read_tokens-text this_year scale dt y n v) (next_tfmt fmt) (i ∷ its) seen e h
