-- ===== src/BlkMem/Sequence.antt =====
-- What a request gets, and contexts over their whole life.
use nihao_github_io.Base.{
  ℕ, ◌+◌, ◌%◌, ◌^◌, ◌<◌, ◌≡◌, refl, inl, Bool, true, false, Option, none, some, List, [], ◌∷◌, ltb,
  leb, if_rule, arith,
}
use nihao_github_io.BlkMem.{
  BlkMem, Piece, round_size, grow, carve, own_block, new_area, blk_mem_alloc, init_blk_mem,
  reset_blk_mem,
}
use nihao_github_io.BlkMem.Pieces.{IsBlkMem, with_piece}
use nihao_github_io.BlkMem.Alloc.{round_bounds, blk_mem_alloc-IsBlkMem}

-- The parent refuses the next block.
abbrev pub Refused : List Bool → Type 0
Refused [] = Unit {0}
Refused (false ∷ grants) = Unit {0}
Refused (true ∷ grants) = ⊥

-- A request for `si` bytes gets more than that, or the parent refuses.
abbrev pub Served : BlkMem → ℕ → Option Piece → Type 0
Served m si none = Refused m.grants
Served m si (some p) = si < p.size

own_block-Served :
    (m : BlkMem) (si n size : ℕ) (grants : List Bool)
    → m.grants ≡ grants
    → si < n
    → Served m si (own_block m n (grow m size grants)).0
unfolding own_block grow
own_block-Served m si n size [] e h = rw e tt
own_block-Served m si n size (false ∷ grants) e h = rw e tt
own_block-Served m si n size (true ∷ grants) e h = h

new_area-Served :
    (m : BlkMem) (si n size : ℕ) (grants : List Bool)
    → m.grants ≡ grants
    → si < n
    → Served m si (new_area m n (grow m size grants)).0
unfolding new_area grow carve
new_area-Served m si n size [] e h = rw e tt
new_area-Served m si n size (false ∷ grants) e h = rw e tt
new_area-Served m si n size (true ∷ grants) e h = h

Answered : BlkMem → ℕ → Option Piece × BlkMem → Type 0
Answered m si r = Served m si r.0

-- `blk_mem_alloc` for less than 2 ^ 32 - 4096 bytes returns a piece of more bytes than asked for,
-- and fails only if the parent, asked for a block, does.
pub blk_mem_alloc-Served :
    (m : BlkMem) (si : ℕ) → si + 4096 < 2 ^ 32 → Served m si (blk_mem_alloc m si).0
unfolding blk_mem_alloc Answered carve
blk_mem_alloc-Served m si h =
    let (more, few, even) = round_bounds si h in
    let n = round_size si in
    let P = Answered m si in
    if_rule P (ltb 4088 ((m.off + n) % 2 ^ 32)) _ _
      (λ _.
        if_rule P (leb 4088 n) _ _
          (λ _. own_block-Served m si n ((n + 8) % 2 ^ 32) m.grants refl more)
          (λ _. new_area-Served m si n 4096 m.grants refl more))
      (λ _. more)

-- The pieces from a sequence of requests, newest first.
unfoldable pub blk_mem_allocs : BlkMem → List Piece → List ℕ → List Piece × BlkMem
blk_mem_allocs m ps [] = (ps, m)
blk_mem_allocs m ps (si ∷ sis) =
    let (o, m') = blk_mem_alloc m si in blk_mem_allocs m' (with_piece o ps) sis

abbrev pub AllSmall : List ℕ → Type 0
AllSmall [] = Unit {0}
AllSmall (si ∷ sis) = (si + 4096 < 2 ^ 32) × AllSmall sis

allocs-IsBlkMem :
    (m : BlkMem) (ps : List Piece) (sis : List ℕ)
    → IsBlkMem m ps
    → AllSmall sis
    → IsBlkMem (blk_mem_allocs m ps sis).1 (blk_mem_allocs m ps sis).0
unfolding blk_mem_allocs
allocs-IsBlkMem m ps [] v h = v
allocs-IsBlkMem m ps (si ∷ sis) v h =
    allocs-IsBlkMem (blk_mem_alloc m si).1 (with_piece (blk_mem_alloc m si).0 ps) sis
      (blk_mem_alloc-IsBlkMem m si ps v h.0) h.1

pub init-IsBlkMem : (grants : List Bool) → IsBlkMem (init_blk_mem grants) []
unfolding init_blk_mem
init-IsBlkMem grants = record {
  size = 4096;
  area = inl (refl, refl);
  room = omega arith;
  within = omega arith;
  old = omega arith;
  aligned = (refl, refl);
  pieces = tt;
  apart = tt;
}

reset-IsBlkMem : (m : BlkMem) (ps : List Piece) → IsBlkMem m ps → IsBlkMem (reset_blk_mem m).1 []
unfolding reset_blk_mem
reset-IsBlkMem m ps v = record {
  size = 4096;
  area = inl (refl, refl);
  room = omega arith;
  within = omega arith;
  old = omega (arith, v.old);
  aligned = (refl, refl);
  pieces = tt;
  apart = tt;
}

-- Whatever is requested of a new context, less than 2 ^ 32 - 4096 bytes each time, and again after
-- a reset, the pieces handed out since lie within its blocks and apart from each other.
pub blk_mem_allocs-IsBlkMem :
    (grants : List Bool) (before after : List ℕ)
    → AllSmall before
    → AllSmall after
    → let used = blk_mem_allocs (init_blk_mem grants) [] before in
      let again = blk_mem_allocs (reset_blk_mem used.1).1 [] after in
      IsBlkMem used.1 used.0 × IsBlkMem again.1 again.0
blk_mem_allocs-IsBlkMem grants before after h k =
    let used = blk_mem_allocs (init_blk_mem grants) [] before in
    let first = allocs-IsBlkMem (init_blk_mem grants) [] before (init-IsBlkMem grants) h in
    (
      first,
      allocs-IsBlkMem (reset_blk_mem used.1).1 [] after (reset-IsBlkMem used.1 used.0 first) k,
    )
