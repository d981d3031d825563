-- ===== src/BlkMem/Alloc.antt =====
-- The branches of `blk_mem_alloc`, and sequences of calls.
use nihao_github_io.Base.{
  ℕ, ◌+◌, ◌%◌, ◌^◌, ◌≤◌, ◌<◌, ◌≡◌, refl, inl, inr, Bool, true, false, Option, List, [], ◌∷◌, ltb,
  leb, if_rule, arith,
}
use nihao_github_io.BlkMem.{BlkMem, Piece, round_size, grow, own_block, new_area, blk_mem_alloc}
use nihao_github_io.BlkMem.Pieces.{
  IsBlkMem, with_piece, keep, apart_from, carve-IsBlkMem, grown, Has-grown, grants_apart,
}

own_block-IsBlkMem :
    (m : BlkMem) (n : ℕ) (grants : List Bool) (ps : List Piece)
    → IsBlkMem m ps
    → IsBlkMem
        (own_block m n (grow m (n + 8) grants)).1
        (with_piece (own_block m n (grow m (n + 8) grants)).0 ps)
unfolding own_block grow
own_block-IsBlkMem m n [] ps v = grants_apart m _ ps v
own_block-IsBlkMem m n (false ∷ grants) ps v = grants_apart m _ ps v
own_block-IsBlkMem m n (true ∷ grants) ps v = record {
  size = v.size;
  area = Has-grown m (n + 8) grants m.buff v.size v.area;
  room = v.room;
  within = v.within;
  old = omega (arith, v.old);
  aligned = v.aligned;
  pieces = (
    record {
      size = n + 8;
      inside = inr (inl (refl, refl));
      fits = omega arith;
      old = omega arith;
      aligned = refl;
      below = λ e. absurd (omega (arith, v.old, e));
    },
    keep m (grown m (n + 8) grants) ps (Has-grown m (n + 8) grants) (omega arith)
        (λ p w e. w.below e) v.pieces,
  );
  apart = (apart_from m _ ps (λ q w e. absurd (omega (arith, w.old, e))) v.pieces, v.apart);
}

-- The new area, before a piece is taken from it.
fresh_area :
    (m : BlkMem) (grants : List Bool) (ps : List Piece)
    → IsBlkMem m ps
    → IsBlkMem (record (grown m 4096 grants) { buff = m.granted; start = 8; off = 0 }) ps
fresh_area m grants ps v = record {
  size = 4096;
  area = inr (inl (refl, refl));
  room = omega arith;
  within = omega arith;
  old = omega arith;
  aligned = (refl, refl);
  pieces =
      keep m (record (grown m 4096 grants) { buff = m.granted; start = 8; off = 0 }) ps
        (Has-grown m 4096 grants) (omega arith) (λ p w e. absurd (omega (arith, w.old, e)))
        v.pieces;
  apart = v.apart;
}

new_area-IsBlkMem :
    (m : BlkMem) (n : ℕ) (grants : List Bool) (ps : List Piece)
    → IsBlkMem m ps
    → n ≤ 4088
    → n % 8 ≡ 0
    → IsBlkMem
        (new_area m n (grow m 4096 grants)).1
        (with_piece (new_area m n (grow m 4096 grants)).0 ps)
unfolding new_area grow
new_area-IsBlkMem m n [] ps v h k = grants_apart m _ ps v
new_area-IsBlkMem m n (false ∷ grants) ps v h k = grants_apart m _ ps v
new_area-IsBlkMem m n (true ∷ grants) ps v h k =
    carve-IsBlkMem (record (grown m 4096 grants) { buff = m.granted; start = 8; off = 0 }) n ps
      (fresh_area m grants ps v) (omega arith) k

-- The sum and the size are below 2 ^ 32 for a request that leaves room for a block.
pub round_bounds :
    (si : ℕ)
    → si + 4096 < 2 ^ 32
    → (si < round_size si) × (round_size si ≤ si + 8) × (round_size si % 8 ≡ 0)
unfolding round_size
round_bounds si h = omega arith

Kept : List Piece → Option Piece × BlkMem → Type 0
Kept ps r = IsBlkMem r.1 (with_piece r.0 ps)

-- A call of `blk_mem_alloc` for `si` bytes, less than 2 ^ 32 - 4096, keeps the context in order,
-- whichever of its branches it takes and whether the parent grants a block or not: each piece
-- handed out lies in a block of the context at a multiple of 8, and no two of them overlap.
pub blk_mem_alloc-IsBlkMem :
    (m : BlkMem) (si : ℕ) (ps : List Piece)
    → IsBlkMem m ps
    → si + 4096 < 2 ^ 32
    → IsBlkMem (blk_mem_alloc m si).1 (with_piece (blk_mem_alloc m si).0 ps)
unfolding blk_mem_alloc Kept
blk_mem_alloc-IsBlkMem m si ps v h =
    let (more, few, even) = round_bounds si h in
    let n = round_size si in
    let sum : (m.off + n) % 2 ^ 32 ≡ m.off + n = omega (arith, v.within, few) in
    let own : (n + 8) % 2 ^ 32 ≡ n + 8 = omega (arith, few) in
    if_rule (Kept ps) (ltb 4088 ((m.off + n) % 2 ^ 32)) _ _
      (λ _.
        if_rule (Kept ps) (leb 4088 n) _ _ (λ _. rw own (own_block-IsBlkMem m n m.grants ps v))
          (λ e. new_area-IsBlkMem m n m.grants ps v (ground (arith, e)) even))
      (λ e. carve-IsBlkMem m n ps v (ground (arith, e, sum)) even)
