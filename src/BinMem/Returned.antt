-- ===== src/BinMem/Returned.antt =====
-- Calls of `bin_mem_free` of ksources/kci_bin_mem.cpp.
use nihao_github_io.Base.{
  ℕ, ◌+◌, ◌-◌, ◌≡◌, refl, sym, subst, ◌⊎◌, inl, inr, true, false, ◌&&◌, Option, none, some, length,
  ltb, ◌==◌, if◌then◌else◌, arith, if_rule,
}
use nihao_github_io.Base.Maps.{put}
use nihao_github_io.BinMem.{
  BinMem, bin_index, is_gmem, free_large, free_heap, insert, insert_into_bin, insert_into_bin0,
  clr_use,
}
use nihao_github_io.BinMem.Alloc.{chunk2mem}
use nihao_github_io.BinMem.Free.{Merged, put_back, free_chunk, bin_mem_free}
use nihao_github_io.BinMem.Kinds.{Kind, gap, taken, big, binned, is_live, is_held}
use nihao_github_io.BinMem.Valid.{insert-IsBin, clr_use-IsBin}
use nihao_github_io.BinMem.HeapSteps.{free_heap-IsBin, free_large-IsBin}
use nihao_github_io.BinMem.Blocks.{IsIdle, owned_size, blocks}
use nihao_github_io.BinMem.Release.{
  IsFreed, IsMerged, owned_kind, next_agrees_lem, prev_agrees_lem, taken-is_gmem, big-is_gmem,
  merge_next-IsMerged, merge_prev-IsMerged,
}

module _ (left : ℕ → Option ℕ) (r : Merged) (v : IsMerged left r) where
  list_back :
      (i : ℕ)
      → (i ≡ 0) ⊎ (i ≡ bin_index (r.mem.size r.chunk))
      → IsFreed left (record { raised = false; mem = insert (clr_use r.mem r.chunk) i r.chunk })
  unfolding insert clr_use blocks owned_size put is_held
  list_back i which =
      let v1 = clr_use-IsBin r.mem v.kind v.home v.valid r.chunk v.is_loose in
      record {
        fine = refl;
        kind = put v.kind r.chunk (binned i);
        home = v.home;
        idle = record {
          valid =
              insert-IsBin (clr_use r.mem r.chunk) v.kind v.home v1 r.chunk i v.is_loose
                (ground arith) which;
          settled = λ b q. ground (arith, q, v.only b);
          unheld = λ b. ground (arith, v.unheld b);
        };
        rest = λ b. ground (arith, v.is_loose, v.rest b);
      }

  heap_back :
      r.mem.size r.chunk ≡ r.mem.step
      → IsFreed left
          (record { raised = false; mem = free_heap (clr_use r.mem r.chunk) (r.chunk - 24) })
  unfolding free_heap clr_use blocks owned_size put is_held
  heap_back whole =
      let v1 = clr_use-IsBin r.mem v.kind v.home v.valid r.chunk v.is_loose in
      record {
        fine = refl;
        kind = put v.kind r.chunk gap;
        home = v.home;
        idle = record {
          valid = free_heap-IsBin (clr_use r.mem r.chunk) v.kind v.home v1 r.chunk v.is_loose whole;
          settled = λ b q. ground (arith, q, v.only b);
          unheld = λ b. ground (arith, v.unheld b);
        };
        rest = λ b. ground (arith, v.is_loose, v.rest b);
      }

  -- Its heap goes back, or it goes on a list.
  put_back-IsFreed : IsFreed left (record { raised = false; mem = put_back r })
  unfolding put_back insert_into_bin insert_into_bin0 clr_use
  put_back-IsFreed =
      if_rule (λ m. IsFreed left (record { raised = false; mem = m }))
        ((r.mem.size r.chunk == r.mem.step) && ltb 1 (length r.mem.heap_stub)) _ _
        (λ q. heap_back (ground (arith, q)))
        (λ q.
          if_rule (λ m. IsFreed left (record { raised = false; mem = m })) r.is_bin0 _ _
            (λ b. list_back 0 (inl refl))
            (λ b. list_back (bin_index (r.mem.size r.chunk)) (inr refl)))

module _ (m : BinMem) (kind : ℕ → Kind) (home : ℕ → ℕ) (v : IsIdle m kind home) (a : ℕ) where
  free_chunk-IsFreed : kind a ≡ taken → IsFreed (put (blocks m kind) a none) (free_chunk m a)
  unfolding free_chunk is_live
  free_chunk-IsFreed e =
      let l : is_live (kind a) ≡ true = rw e refl in
      let r =
        put_back-IsFreed _ _ (merge_prev-IsMerged _ _ (merge_next-IsMerged m kind home v a e)) in
      record {
        fine =
            rw (next_agrees_lem m kind home v.valid a l, prev_agrees_lem m kind home v.valid a l)
              refl;
        kind = r.kind;
        home = r.home;
        idle = r.idle;
        rest = r.rest;
      }

  free_large-IsFreed :
      kind a ≡ big
      → IsFreed
          (put (blocks m kind) a none)
          (record { raised = false; mem = free_large m (a - 24) })
  unfolding free_large blocks owned_size put is_held
  free_large-IsFreed e = record {
    fine = refl;
    kind = put kind a gap;
    home = home;
    idle = record {
      valid = free_large-IsBin m kind home v.valid a e;
      settled = λ b q. ground (arith, q, v.settled b);
      unheld = λ b. ground (arith, v.unheld b);
    };
    rest = λ b. ground arith;
  }

-- In a context that is in order, where a client gives back a block that it has, no error is raised,
-- this block goes and those of the other clients stay as they are. The context is in order again:
-- the chunks tile their heaps, and every free chunk is on one list, that of its size or the first.
pub bin_mem_free-IsFreed :
    (m : BinMem) (kind : ℕ → Kind) (home : ℕ → ℕ) (a n : ℕ)
    → IsIdle m kind home
    → blocks m kind a ≡ some n
    → IsFreed (put (blocks m kind) a none) (bin_mem_free m (chunk2mem a))
unfolding bin_mem_free is_gmem blocks is_live
bin_mem_free-IsFreed m kind home a n v e =
    subst
      (λ c. IsFreed (put (blocks m kind) a none) (
        if is_gmem m c
        then record { raised = false; mem = free_large m (c - 24) }
        else free_chunk m c))
      (sym (header a))
      (elim (owned_kind (kind a) (m.size a) (m.given (a - 24)) n e) [
        | inl t ↦ rw (taken-is_gmem m kind home v.valid a t) (free_chunk-IsFreed m kind home v a t)
        | inr b ↦ rw (big-is_gmem m kind home v.valid a b) (free_large-IsFreed m kind home v a b)
      ])
  where
    header : (a : ℕ) → a + 8 - 8 ≡ a
    header a = omega arith
