-- ===== src/BinMem/Resizing.antt =====
-- Calls of `bin_mem_realloc` of ksources/kci_bin_mem.cpp.
use nihao_github_io.Base.{
  ℕ, ◌+◌, ◌-◌, ◌≤◌, ◌≡◌, refl, sym, subst, inl, inr, Bool, true, false, Option, none, some, ◌==◌,
  if◌then◌else◌, arith,
}
use nihao_github_io.BinMem.Fits.{resize_chunk-IsResized, resize_large-IsResized}
use nihao_github_io.Base.Maps.{put}
use nihao_github_io.LinkMem.{remove}
use nihao_github_io.BinMem.{BinMem, is_gmem}
use nihao_github_io.BinMem.Alloc.{chunk2mem}
use nihao_github_io.BinMem.Realloc.{
  Resized, resize_round, resize_large, resize_chunk, bin_mem_realloc,
}
use nihao_github_io.BinMem.Kinds.{Kind, taken, big}
use nihao_github_io.BinMem.Homes.{IsGranted}
use nihao_github_io.BinMem.Alloc.{heap_bytes}
use nihao_github_io.BinMem.Blocks.{IsIdle, owned_size, blocks}
use nihao_github_io.BinMem.Requests.{asked}
use nihao_github_io.BinMem.Release.{owned_kind, taken-is_gmem, big-is_gmem}
use nihao_github_io.BinMem.Resize.{IsResized}

realloc_block : (m : BinMem) (a si : ℕ) (parent : ℕ → Option ℕ) → Bool → Resized
realloc_block m a si parent b =
    if b
    then record {
      result =
          (resize_large m (a - 24) (resize_round si) (parent (heap_bytes (resize_round si)))).0;
      mem = (resize_large m (a - 24) (resize_round si) (parent (heap_bytes (resize_round si)))).1;
      moved = none;
    }
    else resize_chunk m a (resize_round si) si parent

bin_mem_realloc_lem :
    (m : BinMem) (a si : ℕ) (parent : ℕ → Option ℕ)
    → bin_mem_realloc m (chunk2mem a) si parent ≡ realloc_block m a si parent (is_gmem m a)
unfolding bin_mem_realloc realloc_block
bin_mem_realloc_lem m a si parent = rw (not_null a, header a) refl
  where
    header : (a : ℕ) → a + 8 - 8 ≡ a
    header a = omega arith

    not_null : (a : ℕ) → (a + 8 == 0) ≡ false
    not_null a = ground arith

of_taken :
    (m : BinMem) (kind : ℕ → Kind) (home : ℕ → ℕ) (a k si : ℕ) (parent : ℕ → Option ℕ)
    → IsIdle m kind home
    → blocks m kind a ≡ some k
    → 1 ≤ si
    → si ≤ 4294967248
    → ((h : ℕ)
        → parent (if is_gmem m a then heap_bytes (resize_round si) else asked m si) ≡ some h
        → IsGranted m.given m.heap_stub
            (if is_gmem m a then remove (a - 24) m.large_stub else m.large_stub)
            m.step
            h
            (if is_gmem m a then heap_bytes (resize_round si) else asked m si))
    → kind a ≡ taken
    → IsResized
        (put (blocks m kind) a none)
        (si + 16)
        (parent (if is_gmem m a then heap_bytes (resize_round si) else asked m si))
        a
        k
        si
        (is_gmem m a)
        (realloc_block m a si parent (is_gmem m a))
unfolding blocks owned_size realloc_block
of_taken m kind home a k si parent v e some_bytes few fresh t =
    let off = taken-is_gmem m kind home v.valid a t in
    let size : m.size a ≡ k = ground (arith, e, t) in
    let w =
      resize_chunk-IsResized si some_bytes few (parent (asked m si)) m kind home v a t parent refl
        (λ h g.
          subst
            (λ b.
              IsGranted m.given m.heap_stub
                (if b then remove (a - 24) m.large_stub else m.large_stub) m.step h
                (if b then heap_bytes (resize_round si) else asked m si))
            off
            (fresh h (
              subst (λ b. parent (if b then heap_bytes (resize_round si) else asked m si) ≡ some h)
                (sym off) g))) in
    rw off (
      subst
        (λ k.
          IsResized (put (blocks m kind) a none) (si + 16) (parent (asked m si)) a k si false
            (resize_chunk m a (resize_round si) si parent))
        size w)

of_big :
    (m : BinMem) (kind : ℕ → Kind) (home : ℕ → ℕ) (a k si : ℕ) (parent : ℕ → Option ℕ)
    → IsIdle m kind home
    → blocks m kind a ≡ some k
    → 1 ≤ si
    → si ≤ 4294967248
    → ((h : ℕ)
        → parent (if is_gmem m a then heap_bytes (resize_round si) else asked m si) ≡ some h
        → IsGranted m.given m.heap_stub
            (if is_gmem m a then remove (a - 24) m.large_stub else m.large_stub)
            m.step
            h
            (if is_gmem m a then heap_bytes (resize_round si) else asked m si))
    → kind a ≡ big
    → IsResized
        (put (blocks m kind) a none)
        (si + 16)
        (parent (if is_gmem m a then heap_bytes (resize_round si) else asked m si))
        a
        k
        si
        (is_gmem m a)
        (realloc_block m a si parent (is_gmem m a))
unfolding blocks owned_size realloc_block
of_big m kind home a k si parent v e some_bytes few fresh t =
    let off = big-is_gmem m kind home v.valid a t in
    let size : m.given (a - 24) ≡ k = ground (arith, e, t) in
    let w =
      resize_large-IsResized si some_bytes few (parent (heap_bytes (resize_round si))) m kind home v
        a t _ refl
        (λ h g.
          subst
            (λ b.
              IsGranted m.given m.heap_stub
                (if b then remove (a - 24) m.large_stub else m.large_stub) m.step h
                (if b then heap_bytes (resize_round si) else asked m si))
            off
            (fresh h (
              subst (λ b. parent (if b then heap_bytes (resize_round si) else asked m si) ≡ some h)
                (sym off) g))) in
    rw off (
      subst
        (λ k.
          IsResized (put (blocks m kind) a none) (si + 16) (parent (heap_bytes (resize_round si))) a
            k si true (realloc_block m a si parent true))
        size w)

-- In a context that is in order, where a client asks for 1 to 4294967248 bytes in place of a block
-- that it has, it gets a block of at least 16 bytes more that no other client has: the same one, or
-- one that the parent has grown with its bytes, or one to which as many bytes are moved as the
-- client asks for and the old block has. The blocks of the others stay as they are, and the context
-- is in order again. The call returns nothing only where the parent grants nothing. What the parent
-- grants is apart from its heaps, but for the one that it grows.
pub bin_mem_realloc-IsResized :
    (m : BinMem) (kind : ℕ → Kind) (home : ℕ → ℕ) (a k si : ℕ) (parent : ℕ → Option ℕ)
    → IsIdle m kind home
    → blocks m kind a ≡ some k
    → 1 ≤ si
    → si ≤ 4294967248
    → ((h : ℕ)
        → parent (if is_gmem m a then heap_bytes (resize_round si) else asked m si) ≡ some h
        → IsGranted m.given m.heap_stub
            (if is_gmem m a then remove (a - 24) m.large_stub else m.large_stub)
            m.step
            h
            (if is_gmem m a then heap_bytes (resize_round si) else asked m si))
    → IsResized
        (put (blocks m kind) a none)
        (si + 16)
        (parent (if is_gmem m a then heap_bytes (resize_round si) else asked m si))
        a
        k
        si
        (is_gmem m a)
        (bin_mem_realloc m (chunk2mem a) si parent)
unfolding blocks owned_size
bin_mem_realloc-IsResized m kind home a k si parent v e some_bytes few fresh =
    rw (bin_mem_realloc_lem m a si parent)
      (elim (owned_kind (kind a) (m.size a) (m.given (a - 24)) k e) [
        | inl t ↦ of_taken m kind home a k si parent v e some_bytes few fresh t
        | inr b ↦ of_big m kind home a k si parent v e some_bytes few fresh b
      ])
