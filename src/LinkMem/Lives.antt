-- ===== src/LinkMem/Lives.antt =====
-- The pieces on the list against those that the parent has handed out.
use nihao_github_io.Base.{
  ℕ, ◌≤◌, ◌≡◌, refl, ◌∙◌, sym, ap, Bool, true, false, ◌||◌, Option, none, some, List, [], ◌∷◌, ◌++◌,
  ◌==◌, ==_iff, Bool-cases, inl, inr, arith,
}
use nihao_github_io.LinkMem.{
  has, remove, LinkMem, add_piece, alloc_from, unlink, give_back, realloc_from,
}

has-append : (p : ℕ) (xs ys : List ℕ) → has p (xs ++ ys) ≡ (has p xs || has p ys)
unfolding has
has-append p [] ys = refl
has-append p (x ∷ xs) ys = ground (arith, has-append p xs ys)

pub has-remove_self : (p : ℕ) (xs : List ℕ) → has p (remove p xs) ≡ false
unfolding has remove
has-remove_self p [] = refl
has-remove_self p (x ∷ xs) = ground (arith, has-remove_self p xs)

pub has-remove_ne : (i p : ℕ) (xs : List ℕ) → (i == p) ≡ false → has i (remove p xs) ≡ has i xs
unfolding has remove
has-remove_ne i p [] ne = refl
has-remove_ne i p (x ∷ xs) ne = ground (arith, ne, has-remove_ne i p xs ne)

-- The parent's pieces are those on the list and those that were `lost`.
pub record IsLinkMem (lost : List ℕ) (m : LinkMem) : Type 0 where
  pub all : (i : ℕ) → has i m.live ≡ (has i m.stub || has i lost)
  pub apart : (i : ℕ) → has i m.stub ≡ true → has i lost ≡ false
  pub old : (i : ℕ) → m.granted ≤ i → has i m.live ≡ false

add_piece-IsLinkMem :
    (lost : List ℕ) (m : LinkMem) (grants : List Bool)
    → IsLinkMem lost m
    → IsLinkMem lost (add_piece m grants).1
unfolding add_piece has
add_piece-IsLinkMem lost m grants v = record {
  all = λ i. ground (arith, v.all i, has-append i m.stub (m.granted ∷ []));
  apart =
      λ i e. ground (arith, e, v.all i, v.apart i, v.old i, has-append i m.stub (m.granted ∷ []));
  old = λ i h. ground (arith, v.old i (omega arith));
}

pub given_back :
    (lost : List ℕ) (m : LinkMem) (p : ℕ)
    → has p lost ≡ false
    → IsLinkMem lost m
    → IsLinkMem lost (give_back (unlink m p) p)
unfolding give_back unlink
given_back lost m p h v = record {
  all = λ i. elim (Bool-cases (i == p)) [
    | inl e ↦
        let same : i ≡ p = (==_iff i p).0 e in
        rw same (rw (has-remove_self p m.live) (rw (has-remove_self p m.stub) (rw h refl)))
    | inr e ↦ rw (has-remove_ne i p m.live e) (rw (has-remove_ne i p m.stub e) (v.all i))
  ];
  apart = λ i k. elim (Bool-cases (i == p)) [
    | inl e ↦ (let same : i ≡ p = (==_iff i p).0 e in rw same h)
    | inr e ↦ v.apart i (sym (has-remove_ne i p m.stub e) ∙ k)
  ];
  old = λ i k. elim (Bool-cases (i == p)) [
    | inl e ↦ (let same : i ≡ p = (==_iff i p).0 e in rw same (has-remove_self p m.live))
    | inr e ↦ has-remove_ne i p m.live e ∙ v.old i k
  ];
}

-- A piece that is taken off the list and not given back is lost.
unlinked :
    (lost : List ℕ) (m : LinkMem) (p : ℕ)
    → has p m.stub ≡ true
    → IsLinkMem lost m
    → IsLinkMem (p ∷ lost) (unlink m p)
unfolding unlink has
unlinked lost m p h v = record {
  all = λ i. elim (Bool-cases (i == p)) [
    | inl e ↦
        let same : i ≡ p = (==_iff i p).0 e in
        let living : has i m.live ≡ true =
          ap (λ x. has x m.live) same ∙ v.all p ∙ ap (λ b. b || has p lost) h in
        let gone : has i (remove p m.stub) ≡ false =
          ap (λ x. has x (remove p m.stub)) same ∙ has-remove_self p m.stub in
        rw e (rw gone living)
    | inr e ↦ rw e (rw (has-remove_ne i p m.stub e) (v.all i))
  ];
  apart = λ i k. elim (Bool-cases (i == p)) [
    | inl e ↦
        let same : i ≡ p = (==_iff i p).0 e in
        let gone : has i (remove p m.stub) ≡ false =
          ap (λ x. has x (remove p m.stub)) same ∙ has-remove_self p m.stub in
        absurd cc
    | inr e ↦ rw e (v.apart i (sym (has-remove_ne i p m.stub e) ∙ k))
  ];
  old = v.old;
}

pub alloc_from-IsLinkMem :
    (lost : List ℕ) (grants : List Bool) (m : LinkMem)
    → IsLinkMem lost m
    → IsLinkMem lost (alloc_from grants m).1
unfolding alloc_from
alloc_from-IsLinkMem lost [] m v = v
alloc_from-IsLinkMem lost (false ∷ grants) m v = record {
  all = v.all;
  apart = v.apart;
  old = v.old;
}
alloc_from-IsLinkMem lost (true ∷ grants) m v = add_piece-IsLinkMem lost m grants v

-- The pieces lost after a call of `realloc` for `p` with this outcome.
abbrev pub lost_by : Option ℕ → ℕ → List ℕ → List ℕ
lost_by none p lost = p ∷ lost
lost_by (some q) p lost = lost

pub realloc_from-IsLinkMem :
    (lost : List ℕ) (grants : List Bool) (m : LinkMem) (p : ℕ)
    → has p m.stub ≡ true
    → IsLinkMem lost m
    → IsLinkMem (lost_by (realloc_from grants m p).0 p lost) (realloc_from grants m p).1
unfolding realloc_from add_piece
realloc_from-IsLinkMem lost [] m p h v = unlinked lost m p h v
realloc_from-IsLinkMem lost (false ∷ grants) m p h v =
    let w = unlinked lost m p h v in record { all = w.all; apart = w.apart; old = w.old }
realloc_from-IsLinkMem lost (true ∷ grants) m p h v =
    add_piece-IsLinkMem lost (give_back (unlink m p) p) grants (given_back lost m p (v.apart p h) v)
