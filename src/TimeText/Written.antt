-- ===== src/TimeText/Written.antt =====
-- The text that `tm2str` of ksources/utl_time.cpp writes.
use nihao_github_io.Base.{
  ℕ, zero, suc, ◌≡◌, refl, ap, subst, ◌∙◌, Bool, true, false, not, Option, none, some, List, [],
  ◌∷◌, ◌++◌, append_assoc,
}
use nihao_github_io.Calendar.{DateTime}
use nihao_github_io.TimeText.{Lexed, token, word, stop, out_of_table, next_tfmt}
use nihao_github_io.TimeText.Print.{
  Printed, printed, write_end, write_more, write_one, write_tokens,
}
use nihao_github_io.TimeText.Layout.{
  Item, field, between, prepend, item_of, items, is_layout, is_between, no_point, no_word, seen_in,
  is_part,
}
use nihao_github_io.TimeText.Fields.{Fits, part, Part, is_part-Part, write_token-part}
use nihao_github_io.TimeText.Between.{both_true}

-- The text of a date in a layout.
unfoldable pub text : DateTime → ℕ → List Item → List ℕ
unfolding part
text dt y [] = []
text dt y (field k ∷ its) = part dt y k ++ text dt y its
text dt y (between w ∷ its) = w ++ text dt y its

pub items_step :
    (i : Item) (o : Option (List Item)) (its : List Item)
    → prepend i o ≡ some its
    → (js : List Item) × (o ≡ some js) × (its ≡ i ∷ js)
unfolding prepend
items_step i none its e = cc
items_step i (some js) its e = (js, refl, cc)

-- What `is_layout` says of its first item.
pub record IsField (seen : List ℕ) (k : ℕ) (its : List Item) : Type 0 where
  pub a_part : Part k
  pub new : seen_in k seen ≡ false
  pub no_fraction : no_point its ≡ true
  pub others : is_layout (k ∷ seen) its ≡ true

is_false_lem : (b : Bool) → not b ≡ true → b ≡ false
is_false_lem true e = cc
is_false_lem false e = refl

pub is_layout-IsField :
    (seen : List ℕ) (k : ℕ) (its : List Item)
    → is_layout seen (field k ∷ its) ≡ true
    → IsField seen k its
unfolding is_layout
is_layout-IsField seen k its h =
    let (a, h1) = both_true (is_part k) _ h in
    let (b, h2) = both_true (not (seen_in k seen)) _ h1 in
    let (c, d) = both_true (no_point its) (is_layout (k ∷ seen) its) h2 in
    record {
      a_part = is_part-Part k a;
      new = is_false_lem (seen_in k seen) b;
      no_fraction = c;
      others = d;
    }

-- The loop of `tm2str`.
abbrev pub WritesText :
    DateTime
    → ℕ
    → (List ℕ → Option (List Item))
    → (List ℕ → List ℕ → List ℕ → Bool → Printed)
    → Type 0
WritesText dt y count go =
    (fmt : List ℕ) (its : List Item) (seen buff at : List ℕ)
    → count fmt ≡ some its
    → is_layout seen its ≡ true
    → (its ≡ [] → at ≡ [])
    → go fmt buff at false ≡ printed (buff ++ text dt y its)

write_one-text :
    (float_text : ℕ → ℕ → ℕ → List ℕ) (dt : DateTime) (y : ℕ)
    → Fits dt y
    → (count : List ℕ → Option (List Item)) (go : List ℕ → List ℕ → List ℕ → Bool → Printed)
    → WritesText dt y count go
    → (r : Lexed) (its : List Item) (seen buff at : List ℕ) → item_of count r ≡ some its
    → is_layout seen its ≡ true
    → (its ≡ [] → at ≡ [])
    → write_one float_text dt go buff at false r ≡ printed (buff ++ text dt y its)
unfolding write_one write_end write_more item_of text is_layout
write_one-text float_text dt y v count go writes stop its seen buff at e h clear =
    let nothing : its ≡ [] = cc in rw (nothing, clear nothing)
write_one-text float_text dt y v count go writes out_of_table its seen buff at e h clear = cc
write_one-text float_text dt y v count go writes (token k rest) its seen buff at e h clear =
    let (js, e', same) = items_step (field k) (count rest) its e in
    let f = is_layout-IsField seen k js (subst (λ its. is_layout seen its ≡ true) same h) in
    rw (same, write_token-part float_text dt y k at v f.a_part)
      (writes rest js (k ∷ seen) (buff ++ part dt y k) [] e' f.others (λ _. refl)
        ∙ ap printed (append_assoc buff (part dt y k) (text dt y js)))
write_one-text float_text dt y v count go writes (word w rest) its seen buff at e h clear =
    let (js, e', same) = items_step (between w) (count rest) its e in
    let h1 = subst (λ its. is_layout seen its ≡ true) same h in
    let (a, h2) = both_true (is_between w) _ h1 in
    let (b, c) = both_true (no_word js) (is_layout seen js) h2 in
    rw same (
      writes rest js seen (buff ++ w) [] e' c (λ _. refl)
      ∙ ap printed (append_assoc buff w (text dt y js)))

pub write_tokens-text :
    (float_text : ℕ → ℕ → ℕ → List ℕ) (dt : DateTime) (y n : ℕ)
    → Fits dt y
    → WritesText dt y (items n) (write_tokens float_text dt n)
unfolding write_tokens items
write_tokens-text float_text dt y zero v fmt its seen buff at e h clear = cc
write_tokens-text float_text dt y (suc n) v fmt its seen buff at e h clear =
    write_one-text float_text dt y v (items n) (write_tokens float_text dt n)
      (write_tokens-text float_text dt y n v) (next_tfmt fmt) its seen buff at e h clear
