-- ===== src/BlkMem/Tests.antt =====
-- A context on concrete requests.
use nihao_github_io.Base.{ℕ, ◌≡◌, refl, true, some, List, [], ◌∷◌, arith}
use nihao_github_io.BlkMem.{blk_mem_alloc, init_blk_mem, reset_blk_mem}
use nihao_github_io.BlkMem.Pieces.{IsBlkMem, with_piece}
use nihao_github_io.BlkMem.Alloc.{blk_mem_alloc-IsBlkMem}
use nihao_github_io.BlkMem.Sequence.{
  Served, blk_mem_alloc-Served, blk_mem_allocs, AllSmall, init-IsBlkMem, blk_mem_allocs-IsBlkMem,
}

abbrev requests : List ℕ
requests = 100 ∷ 4000 ∷ 5000 ∷ 8 ∷ []

requests_run :
    (blk_mem_allocs (init_blk_mem (true ∷ true ∷ [])) [] requests).0
    ≡ record { block = 1; place = 4016; size = 16 }
      ∷ record { block = 2; place = 8; size = 5008 }
      ∷ record { block = 1; place = 8; size = 4008 }
      ∷ record { block = 0; place = 0; size = 104 }
      ∷ []
unfolding blk_mem_allocs blk_mem_alloc init_blk_mem
requests_run = refl

-- Sizes wrap around: a request for nearly all memory gets a piece of no bytes.
wrap_run :
    (blk_mem_alloc (init_blk_mem []) 4294967295).0
    ≡ some (record { block = 0; place = 0; size = 0 })
unfolding blk_mem_alloc init_blk_mem
wrap_run = refl

requests_small : AllSmall requests
requests_small = (omega arith, (omega arith, (omega arith, (omega arith, tt))))

blk_mem_alloc-Served_example :
    Served (init_blk_mem []) 5000 (blk_mem_alloc (init_blk_mem []) 5000).0
blk_mem_alloc-Served_example = blk_mem_alloc-Served (init_blk_mem []) 5000 (omega arith)

blk_mem_alloc-IsBlkMem_example :
    IsBlkMem
      (blk_mem_alloc (init_blk_mem (true ∷ [])) 5000).1
      (with_piece (blk_mem_alloc (init_blk_mem (true ∷ [])) 5000).0 [])
blk_mem_alloc-IsBlkMem_example =
    blk_mem_alloc-IsBlkMem (init_blk_mem (true ∷ [])) 5000 [] (init-IsBlkMem (true ∷ []))
      (omega arith)

blk_mem_allocs-IsBlkMem_example :
    let used = blk_mem_allocs (init_blk_mem (true ∷ true ∷ [])) [] requests in
    let again = blk_mem_allocs (reset_blk_mem used.1).1 [] requests in
    IsBlkMem used.1 used.0 × IsBlkMem again.1 again.0
blk_mem_allocs-IsBlkMem_example =
    blk_mem_allocs-IsBlkMem (true ∷ true ∷ []) requests requests requests_small requests_small
