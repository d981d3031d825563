-- ===== src/BlkMem.antt =====
-- The block memory context of ksources/kci_blk_mem.cpp. Its memory is the array `mem0`, block 0,
-- and the blocks from its parent, which are numbered as they are granted: a granted block is apart
-- from all others. For each call of the parent's allocator to come, `grants` has whether it
-- succeeds; past the end of the list calls fail. The link of a block takes its first 8 bytes.
pub mod Pieces
pub mod Alloc
pub mod Sequence
mod Tests
use nihao_github_io.Base.{
  ℕ, zero, suc, ◌+◌, ◌-◌, ◌*◌, ◌/◌, ◌%◌, ◌^◌, Bool, true, false, Option, none, some, List, [], ◌∷◌,
  ltb, leb, if◌then◌else◌,
}

-- The kind of memory: `MemBlk` with the size that it was allocated with.
pub record MemBlk : Type 0 where
  pub block : ℕ
  pub size : ℕ

-- `buff` is the block and `start` the place in it where `buff` points.
pub record BlkMem : Type 0 where
  pub buff : ℕ
  pub start : ℕ
  pub off : ℕ
  pub mem_blks : List MemBlk
  pub granted : ℕ
  pub grants : List Bool

-- Memory handed out: its block, its place there, and its size after rounding.
pub record Piece : Type 0 where
  pub block : ℕ
  pub place : ℕ
  pub size : ℕ

-- `(si + 8) & 0xfffffff8UL`. A `SizeT` has 32 bits.
unfoldable pub round_size : ℕ → ℕ
round_size si = (si + 8) % 2 ^ 32 / 8 * 8

-- One call of the parent's allocator: the new block is linked in, or the call fails.
unfoldable pub grow : BlkMem → ℕ → List Bool → Option BlkMem
grow m size [] = none
grow m size (false ∷ grants) = none
grow m size (true ∷ grants) = some (record m {
  mem_blks = record { block = m.granted; size = size } ∷ m.mem_blks;
  granted = m.granted + 1;
  grants = grants;
})

unfoldable pub used_grant : BlkMem → BlkMem
used_grant m = record m { grants = rest m.grants }
  where
    rest : List Bool → List Bool
    rest [] = []
    rest (b ∷ bs) = bs

-- A piece of `n` bytes at the end of the current area.
unfoldable pub carve : BlkMem → ℕ → Option Piece × BlkMem
carve m n = (
  some (record { block = m.buff; place = m.start + m.off; size = n }),
  record m { off = m.off + n },
)

-- A block of its own, from behind its link.
unfoldable pub own_block : BlkMem → ℕ → Option BlkMem → Option Piece × BlkMem
unfolding used_grant
own_block m n none = (none, used_grant m)
own_block m n (some m') = (some (record { block = m.granted; place = 8; size = n }), m')

unfoldable pub new_area : BlkMem → ℕ → Option BlkMem → Option Piece × BlkMem
unfolding used_grant carve
new_area m n none = (none, used_grant m)
new_area m n (some m') = carve (record m' { buff = m.granted; start = 8; off = 0 }) n

unfoldable pub blk_mem_alloc : BlkMem → ℕ → Option Piece × BlkMem
unfolding round_size grow own_block new_area carve
blk_mem_alloc m si =
    let n = round_size si in
    if ltb 4088 ((m.off + n) % 2 ^ 32)
    then (if leb 4088 n
        then own_block m n (grow m ((n + 8) % 2 ^ 32) m.grants)
        else new_area m n (grow m 4096 m.grants))
    else carve m n

unfoldable pub init_blk_mem : List Bool → BlkMem
init_blk_mem grants = record {
  buff = 0;
  start = 0;
  off = 0;
  mem_blks = [];
  granted = 1;
  grants = grants;
}

-- `reset_blk_mem`, with the blocks that it gives back to the parent.
unfoldable pub reset_blk_mem : BlkMem → List MemBlk × BlkMem
reset_blk_mem m = (m.mem_blks, record m { buff = 0; start = 0; off = 0; mem_blks = [] })
