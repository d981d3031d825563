-- ===== src/BinMem/Requests.antt =====
-- Calls of `bin_mem_alloc` of ksources/kci_bin_mem.cpp.
use nihao_github_io.Base.{
  ℕ, ◌+◌, ◌-◌, ◌%◌, ◌^◌, ◌≤◌, ◌<◌, ◌≡◌, refl, sym, ap, subst, Bool, true, false, Option, some, leb,
  if◌then◌else◌, arith, if_rule,
}
use nihao_github_io.BinMem.Search.{alloc_chunk-IsAllocated}
use nihao_github_io.BinMem.{BinMem, is_small}
use nihao_github_io.BinMem.Alloc.{
  heap_bytes, round_size, is_large, alloc_large, alloc_small, alloc_middle, bin_mem_alloc,
}
use nihao_github_io.BinMem.Kinds.{Kind, is_held}
use nihao_github_io.BinMem.Homes.{IsFresh, IsGranted, heap_bytes-IsFresh}
use nihao_github_io.BinMem.Blocks.{IsCalm, blocks}
use nihao_github_io.BinMem.Serve.{IsAllocated, less-IsAllocated}
use nihao_github_io.BinMem.Search.{alloc_large-IsAllocated}

pub round_size_mod : (si : ℕ) → round_size si % 8 ≡ 0
unfolding round_size
round_size_mod si = ground arith

pub round_size_room : (si : ℕ) → si ≤ 4294967248 → si + 16 ≤ round_size si
unfolding round_size
round_size_room si hi = ground (arith, hi)

pub round_size_max : (si : ℕ) → si ≤ 4294967248 → round_size si + 24 < 2 ^ 32
unfolding round_size
round_size_max si hi = ground (arith, hi)

small_step :
    (step siz : ℕ)
    → 512 ≤ step
    → step < 2 ^ 32
    → leb ((step + 2 ^ 64 - 24) % 2 ^ 64) siz ≡ false
    → siz ≤ step
small_step step siz lo hi e = ground (arith, e, lo, hi)

-- The bytes that the parent is asked for.
unfoldable pub asked : BinMem → ℕ → ℕ
unfolding is_large round_size heap_bytes
asked m si = heap_bytes (if is_large m (round_size si) then round_size si else m.step)

asked_at :
    (m : BinMem) (si : ℕ) (b : Bool)
    → is_large m (round_size si) ≡ b
    → asked m si ≡ heap_bytes (if b then round_size si else m.step)
unfolding asked
asked_at m si b e = ap (λ b. heap_bytes (if b then round_size si else m.step)) e

granted-IsFresh :
    (m : BinMem) (si : ℕ) (parent : ℕ → Option ℕ) (n : ℕ)
    → n + 24 < 2 ^ 32
    → asked m si ≡ heap_bytes n
    → ((h : ℕ)
        → parent (asked m si) ≡ some h
        → IsGranted m.given m.heap_stub m.large_stub m.step h (asked m si))
    → (h : ℕ) → parent (heap_bytes n) ≡ some h
    → IsFresh m.given m.heap_stub m.large_stub m.step h n
granted-IsFresh m si parent n lt e fresh h q =
    heap_bytes-IsFresh m.given m.heap_stub m.large_stub m.step h n lt (
      subst (λ k. IsGranted m.given m.heap_stub m.large_stub m.step h k) e
        (fresh h (subst (λ k. parent k ≡ some h) (sym e) q)))

-- In a context that is in order a request of 1 to 4294967248 bytes gets a block of at least 16
-- bytes more that no client has, and the blocks of the clients stay as they are; it gets nothing
-- only where the parent grants nothing, and then all blocks stay. The context is in order again:
-- the chunks tile their heaps, and every free chunk, but for one that a call of `bin_mem_realloc`
-- keeps, is on one list, that of its size or the first. What the parent grants is apart from its
-- heaps.
pub bin_mem_alloc-IsAllocated :
    (m : BinMem) (kind : ℕ → Kind) (home : ℕ → ℕ) (si : ℕ) (parent : ℕ → Option ℕ)
    → IsCalm m kind home
    → 1 ≤ si
    → si ≤ 4294967248
    → ((h : ℕ)
        → parent (asked m si) ≡ some h
        → IsGranted m.given m.heap_stub m.large_stub m.step h (asked m si))
    → IsAllocated
        (blocks m kind)
        (λ b. is_held (kind b))
        (si + 16)
        (parent (asked m si))
        (bin_mem_alloc m si parent)
unfolding bin_mem_alloc
bin_mem_alloc-IsAllocated m kind home si parent v lo hi fresh =
    let al = round_size_mod si in
    let room = round_size_room si hi in
    let some_bytes : 24 ≤ round_size si = omega (arith, room, al, lo) in
    less-IsAllocated (blocks m kind) (λ b. is_held (kind b)) (round_size si) (si + 16) _ _ room
      (if_rule
        (λ r.
          IsAllocated (blocks m kind) (λ b. is_held (kind b)) (round_size si) (parent (asked m si))
            r)
        (is_large m (round_size si)) _ _
        (λ large.
          let e = asked_at m si true large in
          subst
            (λ n.
              IsAllocated (blocks m kind) (λ b. is_held (kind b)) (round_size si) (parent n)
                (alloc_large m (round_size si) (parent (heap_bytes (round_size si)))))
            (sym e)
            (alloc_large-IsAllocated (round_size si) al some_bytes _ m kind home v _ refl
              (granted-IsFresh m si parent (round_size si) (round_size_max si hi) e fresh)))
        (λ small.
          let e = asked_at m si false small in
          subst
            (λ n.
              IsAllocated (blocks m kind) (λ b. is_held (kind b)) (round_size si) (parent n)
                (if is_small (round_size si)
                  then alloc_small m (round_size si) (parent (heap_bytes m.step))
                  else alloc_middle m (round_size si) (parent (heap_bytes m.step))))
            (sym e)
            (alloc_chunk-IsAllocated (round_size si) al some_bytes _ m kind home v
              (small_step m.step (round_size si) v.valid.step_min (omega (arith, v.valid.step_max))
                small)
              (granted-IsFresh m si parent m.step v.valid.step_max e fresh))))
