-- ===== src/BinMem/Search.antt =====
-- The search for a chunk in `bin_mem_alloc` of ksources/kci_bin_mem.cpp.
use nihao_github_io.Base.{
  ℕ, zero, suc, ◌+◌, ◌/◌, ◌%◌, ◌≤◌, ◌<◌, ◌≡◌, refl, ◌⊎◌, inr, Option, none, some, List, [], ◌∷◌,
  leb, if◌then◌else◌, arith, if_rule, Option_rule,
}
use nihao_github_io.BinMem.Serve.{
  set_use-IsAllocated, use_chunk-IsAllocated, use_chunk0-IsAllocated,
}
use nihao_github_io.Base.Maps.{put}
use nihao_github_io.LinkMem.Times.{times_in}
use nihao_github_io.BinMem.{
  BinMem, bin_index, is_small, insert, insert_into_bin, remove_from_bin, set_use, set_head,
}
use nihao_github_io.BinMem.Alloc.{
  chunk2mem, new_large, alloc_large, use_chunk, use_chunk0, first_fit, new_heap, alloc_top,
  search_bins, search_up, try_recent, alloc_recent, take_small, small_bin, alloc_small, take_fit,
  alloc_middle,
}
use nihao_github_io.BinMem.Kinds.{Kind, loose, big, binned, is_held}
use nihao_github_io.BinMem.Homes.{IsFresh}
use nihao_github_io.BinMem.Grants.{fresh_gap}
use nihao_github_io.BinMem.Valid.{IsBin, remove_from_bin-IsBin, insert-IsBin}
use nihao_github_io.BinMem.HeapSteps.{new_heap-IsBin, new_large-IsBin}
use nihao_github_io.BinMem.Blocks.{IsCalm, owned_size, blocks}
use nihao_github_io.BinMem.Serve.{
  IsAllocated, failed, served, same-IsAllocated, first_fit_lem, listed-binned,
}

-- The chunks of a list for small sizes are all of one size.
small_fits :
    (siz n b : ℕ)
    → siz % 8 ≡ 0
    → 24 ≤ siz
    → (b ≡ 0) ⊎ (b ≡ bin_index n)
    → siz / 8 ≤ b
    → b ≤ 63
    → siz ≤ n
unfolding bin_index
small_fits siz n b al mi e lo hi = ground (arith, al, mi, e, lo, hi)

small_bin_lem : (bs : List ℕ) (b : ℕ) → (b ≤ small_bin bs b) × (small_bin bs b ≤ b + 1)
unfolding small_bin
small_bin_lem [] b = (omega arith, omega arith)
small_bin_lem (a ∷ bs) b = (omega arith, omega arith)

module _ (siz : ℕ) (al : siz % 8 ≡ 0) (mi : 24 ≤ siz) (grant : Option ℕ) where
  -- A chunk of a list is taken.
  module _ (m : BinMem) (kind : ℕ → Kind) (home : ℕ → ℕ) (v : IsCalm m kind home) (a i : ℕ)
      (e : kind a ≡ binned i) where
    off-IsBin : IsBin (remove_from_bin m a) (put kind a loose) home
    off-IsBin = remove_from_bin-IsBin m kind home v.valid a i e

    off_only : (b : ℕ) → put kind a loose b ≡ loose → b ≡ a
    unfolding put
    off_only b q = ground (arith, q, v.settled b)

    off_blocks : (b : ℕ) → blocks (remove_from_bin m a) (put kind a loose) b ≡ blocks m kind b
    unfolding blocks remove_from_bin owned_size put
    off_blocks b = ground (arith, e)

    off_held : (b : ℕ) → is_held (put kind a loose b) ≡ is_held (kind b)
    unfolding put is_held
    off_held b = ground (arith, e)

    off_use-IsAllocated :
        siz ≤ m.size a
        → IsAllocated
            (blocks m kind)
            (λ b. is_held (kind b))
            siz
            grant
            (some (chunk2mem a), set_use (remove_from_bin m a) a)
    unfolding remove_from_bin put
    off_use-IsAllocated fits =
        same-IsAllocated _ _ _ _ siz grant _
          (set_use-IsAllocated (remove_from_bin m a) (put kind a loose) home off-IsBin a siz
            (ground arith) off_only al mi grant fits)
          off_blocks off_held

    off_use_chunk-IsAllocated :
        siz ≤ m.size a
        → IsAllocated
            (blocks m kind)
            (λ b. is_held (kind b))
            siz
            grant
            (use_chunk (remove_from_bin m a) a siz)
    unfolding remove_from_bin put
    off_use_chunk-IsAllocated fits =
        same-IsAllocated _ _ _ _ siz grant _
          (use_chunk-IsAllocated (remove_from_bin m a) (put kind a loose) home off-IsBin a siz
            (ground arith) off_only al mi grant fits)
          off_blocks off_held

    off_use_chunk0-IsAllocated :
        siz ≤ m.size a
        → IsAllocated
            (blocks m kind)
            (λ b. is_held (kind b))
            siz
            grant
            (use_chunk0 (remove_from_bin m a) a siz)
    unfolding remove_from_bin put
    off_use_chunk0-IsAllocated fits =
        same-IsAllocated _ _ _ _ siz grant _
          (use_chunk0-IsAllocated (remove_from_bin m a) (put kind a loose) home off-IsBin a siz
            (ground arith) off_only al mi grant fits)
          off_blocks off_held

    -- It goes to the list of its size.
    moved : BinMem
    moved = insert_into_bin (remove_from_bin m a) a

    moved_kind : ℕ → Kind
    moved_kind = put (put kind a loose) a (binned (bin_index (m.size a)))

    moved-IsCalm : IsCalm moved moved_kind home
    unfolding moved moved_kind insert_into_bin remove_from_bin put
    moved-IsCalm = record {
      valid =
          insert-IsBin (remove_from_bin m a) (put kind a loose) home off-IsBin a
            (bin_index (m.size a)) (ground arith) (v.valid.in_lists.binned_free a i e) (inr refl);
      settled = λ b q. ground (arith, q, v.settled b);
    }

    moved_blocks : (b : ℕ) → blocks moved moved_kind b ≡ blocks m kind b
    unfolding moved moved_kind blocks insert_into_bin insert remove_from_bin owned_size put
    moved_blocks b = ground (arith, e)

    moved_held : (b : ℕ) → is_held (moved_kind b) ≡ is_held (kind b)
    unfolding moved_kind put is_held
    moved_held b = ground (arith, e)

  module _ (m : BinMem) (kind : ℕ → Kind) (home : ℕ → ℕ) (v : IsCalm m kind home)
      (fits : siz ≤ m.step)
      (fresh : (h : ℕ)
        → grant ≡ some h
        → IsFresh m.given m.heap_stub m.large_stub m.step h m.step) where
    new_blocks :
        (h : ℕ)
        → grant ≡ some h
        → (b : ℕ) → blocks (new_heap m h) (put kind (h + 24) loose) b ≡ blocks m kind b
    unfolding blocks new_heap set_head owned_size put
    new_blocks h e b =
        let hole =
          fresh_gap kind home m.size m.prev_size m.given m.next_ok m.prev_ok m.heap_stub
            m.large_stub m.step v.valid.tiled v.valid.housed h m.step
            (ground (arith, v.valid.step_min)) (fresh h e) in
        ground (arith, hole, v.valid.housed.big_low b)

    new_held :
        (h : ℕ) → grant ≡ some h → (b : ℕ) → is_held (put kind (h + 24) loose b) ≡ is_held (kind b)
    unfolding put is_held
    new_held h e b =
        let hole =
          fresh_gap kind home m.size m.prev_size m.given m.next_ok m.prev_ok m.heap_stub
            m.large_stub m.step v.valid.tiled v.valid.housed h m.step
            (ground (arith, v.valid.step_min)) (fresh h e) in
        ground (arith, hole)

    new_only : (h b : ℕ) → put kind (h + 24) loose b ≡ loose → b ≡ h + 24
    unfolding put
    new_only h b q = ground (arith, q, v.settled b)

    alloc_top-IsAllocated :
        (o : Option ℕ)
        → grant ≡ o
        → IsAllocated (blocks m kind) (λ b. is_held (kind b)) siz grant (alloc_top m siz o)
    unfolding alloc_top new_heap set_head put
    alloc_top-IsAllocated none e = failed m kind home e v (λ b. refl) (λ b. refl)
    alloc_top-IsAllocated (some h) e =
        same-IsAllocated _ _ _ _ siz grant _
          (use_chunk0-IsAllocated (new_heap m h) (put kind (h + 24) loose) (put home (h + 24) h)
            (new_heap-IsBin m kind home v.valid h (fresh h e)) (h + 24) siz (ground arith)
            (new_only h) al mi grant (ground (arith, fits)))
          (new_blocks h e) (new_held h e)

    search_bins-IsAllocated :
        (n b : ℕ)
        → IsAllocated
            (blocks m kind)
            (λ b. is_held (kind b))
            siz
            grant
            (search_bins n m b siz grant)
    unfolding search_bins
    search_bins-IsAllocated zero b = alloc_top-IsAllocated grant refl
    search_bins-IsAllocated (suc n) b =
        Option_rule (λ r. IsAllocated (blocks m kind) (λ b. is_held (kind b)) siz grant r)
          (first_fit m.size siz (m.bins b)) _ _ (λ e. search_bins-IsAllocated n (b + 1))
          (λ a e.
            let f = first_fit_lem m.size siz a (m.bins b) e in
            off_use_chunk0-IsAllocated m kind home v a b (listed-binned m kind home v.valid a b f.0)
              f.1)

  module _ (m : BinMem) (kind : ℕ → Kind) (home : ℕ → ℕ) (v : IsCalm m kind home)
      (fits : siz ≤ m.step)
      (fresh : (h : ℕ)
        → grant ≡ some h
        → IsFresh m.given m.heap_stub m.large_stub m.step h m.step) where
    first-binned : (a i : ℕ) (rest : List ℕ) → m.bins i ≡ a ∷ rest → kind a ≡ binned i
    unfolding times_in
    first-binned a i rest e = listed-binned m kind home v.valid a i (rw e (ground arith))

    try_recent-IsAllocated :
        (bs : List ℕ) (b : ℕ)
        → m.bins 0 ≡ bs
        → IsAllocated
            (blocks m kind)
            (λ b. is_held (kind b))
            siz
            grant
            (try_recent bs m b siz grant)
    unfolding try_recent search_up remove_from_bin insert_into_bin insert moved
    try_recent-IsAllocated [] b e = search_bins-IsAllocated m kind home v fits fresh _ b
    try_recent-IsAllocated (a ∷ rest) b e =
        let f = first-binned a 0 rest e in
        if_rule (λ r. IsAllocated (blocks m kind) (λ b. is_held (kind b)) siz grant r)
          (leb siz (m.size a)) _ _
          (λ le. off_use_chunk0-IsAllocated m kind home v a 0 f (ground (arith, le)))
          (λ le.
            same-IsAllocated _ _ _ _ siz grant _
              (search_bins-IsAllocated (moved m kind home v a 0 f) (moved_kind m kind home v a 0 f)
                home (moved-IsCalm m kind home v a 0 f) fits fresh _ b)
              (moved_blocks m kind home v a 0 f) (moved_held m kind home v a 0 f))

    alloc_recent-IsAllocated :
        (b : ℕ)
        → IsAllocated (blocks m kind) (λ b. is_held (kind b)) siz grant (alloc_recent m b siz grant)
    unfolding alloc_recent
    alloc_recent-IsAllocated b = try_recent-IsAllocated (m.bins 0) b refl

    take_small-IsAllocated :
        (bs : List ℕ) (b : ℕ)
        → m.bins b ≡ bs
        → siz / 8 ≤ b
        → b ≤ 63
        → IsAllocated
            (blocks m kind)
            (λ b. is_held (kind b))
            siz
            grant
            (take_small bs m b siz grant)
    unfolding take_small
    take_small-IsAllocated [] b e lo hi = alloc_recent-IsAllocated (b + 1)
    take_small-IsAllocated (a ∷ rest) b e lo hi =
        let f = first-binned a b rest e in
        off_use-IsAllocated m kind home v a b f
          (small_fits siz (m.size a) b al mi (v.valid.in_lists.index a b f) lo hi)

    alloc_small-IsAllocated :
        siz < 504
        → IsAllocated (blocks m kind) (λ b. is_held (kind b)) siz grant (alloc_small m siz grant)
    unfolding alloc_small
    alloc_small-IsAllocated small =
        let near = small_bin_lem (m.bins (siz / 8)) (siz / 8) in
        take_small-IsAllocated _ (small_bin (m.bins (siz / 8)) (siz / 8)) refl near.0
          (omega (arith, near.1, al))

    take_fit-IsAllocated :
        (o : Option ℕ) (b : ℕ)
        → first_fit m.size siz (m.bins b) ≡ o
        → IsAllocated (blocks m kind) (λ b. is_held (kind b)) siz grant (take_fit o m b siz grant)
    unfolding take_fit
    take_fit-IsAllocated none b e = alloc_recent-IsAllocated (b + 1)
    take_fit-IsAllocated (some a) b e =
        let f = first_fit_lem m.size siz a (m.bins b) e in
        off_use_chunk-IsAllocated m kind home v a b (listed-binned m kind home v.valid a b f.0) f.1

    pub alloc_chunk-IsAllocated :
        IsAllocated
          (blocks m kind)
          (λ b. is_held (kind b))
          siz
          grant
          (if is_small siz then alloc_small m siz grant else alloc_middle m siz grant)
    unfolding is_small alloc_middle
    alloc_chunk-IsAllocated =
        if_rule (λ r. IsAllocated (blocks m kind) (λ b. is_held (kind b)) siz grant r)
          (is_small siz) _ _ (λ lt. alloc_small-IsAllocated (ground (arith, lt)))
          (λ le.
            take_fit-IsAllocated (first_fit m.size siz (m.bins (bin_index siz))) (bin_index siz)
              refl)

  pub alloc_large-IsAllocated :
      (m : BinMem) (kind : ℕ → Kind) (home : ℕ → ℕ)
      → IsCalm m kind home
      → (o : Option ℕ) → grant ≡ o
      → ((h : ℕ) → grant ≡ some h → IsFresh m.given m.heap_stub m.large_stub m.step h siz)
      → IsAllocated (blocks m kind) (λ b. is_held (kind b)) siz grant (alloc_large m siz o)
  unfolding alloc_large new_large blocks owned_size is_held put
  alloc_large-IsAllocated m kind home v none e fresh =
      failed m kind home e v (λ b. refl) (λ b. refl)
  alloc_large-IsAllocated m kind home v (some h) e fresh =
      let hole =
        fresh_gap kind home m.size m.prev_size m.given m.next_ok m.prev_ok m.heap_stub m.large_stub
          m.step v.valid.tiled v.valid.housed h siz (omega (arith, mi)) (fresh h e) in
      served (new_large m h siz) (put kind (h + 24) big) home (h + 24) siz
        (record {
          valid = new_large-IsBin m kind home v.valid h siz (omega (arith, mi)) (fresh h e);
          settled = λ b q. ground (arith, q, v.settled b);
        })
        (rw hole refl) (omega arith) (λ b. ground (arith, v.valid.housed.big_low b))
        (λ b. ground (arith, hole))
