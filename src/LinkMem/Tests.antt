-- ===== src/LinkMem/Tests.antt =====
-- A context whose second `realloc` fails.
use nihao_github_io.Base.{◌≡◌, refl, Bool, true, false, some, List, [], ◌∷◌}
use nihao_github_io.LinkMem.{
  has, LinkMem, link_mem_alloc, link_mem_realloc, reset_link_mem, init_link_mem,
}
use nihao_github_io.LinkMem.Lives.{IsLinkMem}
use nihao_github_io.LinkMem.Reset.{
  alloc, realloc, Reach, start, next, Reach-IsLinkMem, reset_link_mem-Reach,
}

abbrev answers : List Bool
answers = true ∷ false ∷ []

-- One piece, for which `realloc` then fails.
one_piece : LinkMem
one_piece = (link_mem_alloc (init_link_mem answers)).1

after_failure : LinkMem
after_failure = (link_mem_realloc one_piece (some 0)).1

after_failure-Reach : Reach answers after_failure (0 ∷ [])
unfolding after_failure one_piece link_mem_alloc link_mem_realloc init_link_mem has
after_failure-Reach =
    next one_piece after_failure [] (0 ∷ [])
      (next (init_link_mem answers) one_piece [] [] start (alloc (init_link_mem answers) []))
      (realloc one_piece [] 0 refl)

Reach-IsLinkMem_example : IsLinkMem (0 ∷ []) after_failure
Reach-IsLinkMem_example = Reach-IsLinkMem answers after_failure (0 ∷ []) after_failure-Reach

reset_link_mem-Reach_example :
    (has 0 (reset_link_mem after_failure).stub ≡ false)
    × (has 0 (reset_link_mem after_failure).live ≡ has 0 (0 ∷ []))
reset_link_mem-Reach_example =
    reset_link_mem-Reach answers after_failure (0 ∷ []) 0 after_failure-Reach

-- The piece is still with the parent's allocations after the reset.
lost_run : has 0 (reset_link_mem after_failure).live ≡ true
unfolding after_failure one_piece link_mem_alloc link_mem_realloc init_link_mem has reset_link_mem
lost_run = refl
