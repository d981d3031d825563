-- ===== src/LinkMem/Reset.antt =====
-- Calls on a linked context, and what a reset leaves with the parent.
use nihao_github_io.Base.{
  ℕ, ◌≡◌, refl, ◌∙◌, sym, ap, Bool, true, false, ◌||◌, none, some, List, [], ◌∷◌, ◌==◌, ==_iff,
  Bool-cases, inl, inr, arith,
}
use nihao_github_io.LinkMem.{
  has, remove, LinkMem, link_mem_alloc, unlink, give_back, link_mem_realloc, link_mem_free,
  reset_pieces, reset_link_mem, init_link_mem,
}
use nihao_github_io.LinkMem.Lives.{
  IsLinkMem, lost_by, given_back, alloc_from-IsLinkMem, realloc_from-IsLinkMem, has-remove_self,
  has-remove_ne,
}

-- A call on the context, with a piece that is on its list, and the pieces lost before and after.
pub data Step : LinkMem → List ℕ → LinkMem → List ℕ → Type 0 where
  alloc : (m : LinkMem) (lost : List ℕ) → Step m lost (link_mem_alloc m).1 lost
  realloc_new : (m : LinkMem) (lost : List ℕ) → Step m lost (link_mem_realloc m none).1 lost
  realloc :
      (m : LinkMem) (lost : List ℕ) (p : ℕ)
      → has p m.stub ≡ true
      → Step m lost (link_mem_realloc m (some p)).1 (lost_by (link_mem_realloc m (some p)).0 p lost)
  free_none : (m : LinkMem) (lost : List ℕ) → Step m lost (link_mem_free m none) lost
  free :
      (m : LinkMem) (lost : List ℕ) (p : ℕ)
      → has p m.stub ≡ true
      → Step m lost (link_mem_free m (some p)) lost

-- A context reached from a new one.
pub data Reach (grants : List Bool) : LinkMem → List ℕ → Type 0 where
  start : Reach grants (init_link_mem grants) []
  next :
      (m m' : LinkMem) (lost lost' : List ℕ)
      → Reach grants m lost
      → Step m lost m' lost'
      → Reach grants m' lost'

Step-IsLinkMem :
    (m m' : LinkMem) (lost lost' : List ℕ)
    → Step m lost m' lost'
    → IsLinkMem lost m
    → IsLinkMem lost' m'
unfolding link_mem_alloc link_mem_realloc link_mem_free
Step-IsLinkMem m _ lost _ (alloc _ _) v = alloc_from-IsLinkMem lost m.grants m v
Step-IsLinkMem m _ lost _ (realloc_new _ _) v = alloc_from-IsLinkMem lost m.grants m v
Step-IsLinkMem m _ lost _ (realloc _ _ p h) v = realloc_from-IsLinkMem lost m.grants m p h v
Step-IsLinkMem m _ lost _ (free_none _ _) v = v
Step-IsLinkMem m _ lost _ (free _ _ p h) v = given_back lost m p (v.apart p h) v

-- In every state that calls on a new context reach, the parent's pieces are those on the list, to
-- which a reset leads, and those that a failed `realloc` took off the list without giving them
-- back; no piece is both.
pub Reach-IsLinkMem :
    (grants : List Bool) (m : LinkMem) (lost : List ℕ) → Reach grants m lost → IsLinkMem lost m
unfolding init_link_mem has
Reach-IsLinkMem grants m lost start = record {
  all = λ i. refl;
  apart = λ i e. refl;
  old = λ i h. refl;
}
Reach-IsLinkMem grants m' lost' (next m _ lost _ r s) =
    Step-IsLinkMem m m' lost lost' s (Reach-IsLinkMem grants m lost r)

has_rest : (i p : ℕ) (ps : List ℕ) → (i == p) ≡ false → has i (p ∷ ps) ≡ true → has i ps ≡ true
unfolding has
has_rest i p ps ne h = ground (arith, ne, h)

has_first : (p : ℕ) (ps : List ℕ) → has p (p ∷ ps) ≡ true
unfolding has
has_first p ps = ground arith

has_more : (i p : ℕ) (ps : List ℕ) → has i ps ≡ true → has i (p ∷ ps) ≡ true
unfolding has
has_more i p ps h = ground (arith, h)

reset_pieces_lem :
    (lost ps : List ℕ) (m : LinkMem)
    → IsLinkMem lost m
    → ((i : ℕ) → has i m.stub ≡ true → has i ps ≡ true)
    → ((i : ℕ) → has i ps ≡ true → has i lost ≡ false)
    → (i : ℕ)
    → (has i (reset_pieces ps m).stub ≡ false) × (has i (reset_pieces ps m).live ≡ has i lost)
unfolding reset_pieces
reset_pieces_lem lost [] m v listed found i = elim (Bool-cases (has i m.stub)) [
  | inl e ↦ absurd (nothing i (listed i e))
  | inr e ↦ (e, v.all i ∙ ap (λ b. b || has i lost) e)
]
  where
    nothing : (i : ℕ) → has i [] ≡ true → ⊥
    nothing i h = unfold has in cc
reset_pieces_lem lost (p ∷ ps) m v listed found j =
    reset_pieces_lem lost ps (give_back (unlink m p) p)
      (given_back lost m p (found p (has_first p ps)) v)
      (λ i e.
        unfold unlink give_back in
        elim (Bool-cases (i == p)) [
          | inl s ↦
              let same : i ≡ p = (==_iff i p).0 s in
              let gone : has i (remove p m.stub) ≡ false =
                ap (λ x. has x (remove p m.stub)) same ∙ has-remove_self p m.stub in
              absurd cc
          | inr s ↦ has_rest i p ps s (listed i (sym (has-remove_ne i p m.stub s) ∙ e))
        ])
      (λ i e. found i (has_more i p ps e)) j

-- A reset, in any state that calls on a new context reach, empties the list and gives every piece
-- back to the parent, except the pieces lost in a `realloc` that failed: those the parent keeps.
pub reset_link_mem-Reach :
    (grants : List Bool) (m : LinkMem) (lost : List ℕ) (i : ℕ)
    → Reach grants m lost
    → (has i (reset_link_mem m).stub ≡ false) × (has i (reset_link_mem m).live ≡ has i lost)
unfolding reset_link_mem
reset_link_mem-Reach grants m lost i r =
    let v = Reach-IsLinkMem grants m lost r in reset_pieces_lem lost m.stub m v (λ i e. e) v.apart i
