-- ===== src/BinMem/Free.antt =====
-- `bin_mem_free` of ksources/kci_bin_mem.cpp.
use nihao_github_io.Base.{
  ℕ, ◌+◌, ◌-◌, Bool, false, not, ◌&&◌, ◌||◌, List, [], ◌∷◌, length, ltb, ◌==◌, if◌then◌else◌,
}
use nihao_github_io.BinMem.{
  BinMem, is_gmem, free_large, free_heap, remove_from_bin, merge_chunk, clr_use, insert_into_bin,
  insert_into_bin0,
}

-- The first chunk of a list, if it is `a`.
unfoldable pub is_first : List ℕ → ℕ → Bool
is_first [] a = false
is_first (b ∷ bs) a = b == a

-- `SAFE_FREE`: the neighbours know the chunk.
unfoldable pub next_agrees : BinMem → ℕ → Bool
next_agrees m a =
    let n = a + m.size a in not (m.next_ok a) || (m.prev_ok n && (n - m.prev_size n == a))

unfoldable pub prev_agrees : BinMem → ℕ → Bool
prev_agrees m a =
    let p = a - m.prev_size a in not (m.prev_ok a) || (m.next_ok p && (p + m.size p == a))

-- A chunk with the context, and whether bin 0 is meant for it.
pub record Merged : Type 0 where
  pub mem : BinMem
  pub chunk : ℕ
  pub is_bin0 : Bool

unfoldable pub merge_next : BinMem → ℕ → Merged
unfolding is_first remove_from_bin merge_chunk
merge_next m a =
    let n = a + m.size a in
    if m.next_ok a && not (m.used n)
    then record {
      mem = merge_chunk (remove_from_bin m n) a n;
      chunk = a;
      is_bin0 = is_first (m.bins 0) n;
    }
    else record { mem = m; chunk = a; is_bin0 = false }

unfoldable pub merge_prev : Merged → Merged
unfolding is_first remove_from_bin merge_chunk
merge_prev r =
    let m = r.mem in
    let a = r.chunk in
    let p = a - m.prev_size a in
    if m.prev_ok a && not (m.used p)
    then record {
      mem = merge_chunk (remove_from_bin m p) p a;
      chunk = p;
      is_bin0 = r.is_bin0 || is_first (m.bins 0) p;
    }
    else r

unfoldable pub put_back : Merged → BinMem
unfolding free_heap insert_into_bin0 insert_into_bin clr_use
put_back r =
    let m = clr_use r.mem r.chunk in
    if (m.size r.chunk == m.step) && ltb 1 (length m.heap_stub)
    then free_heap m (r.chunk - 24)
    else if r.is_bin0
    then insert_into_bin0 m r.chunk
    else insert_into_bin m r.chunk

-- `raise_mem_err` does nothing, so the call goes on; `raised` says whether it was called.
pub record Freed : Type 0 where
  pub raised : Bool
  pub mem : BinMem

unfoldable pub free_chunk : BinMem → ℕ → Freed
unfolding next_agrees prev_agrees merge_next merge_prev put_back
free_chunk m a = record {
  raised = not (next_agrees m a && prev_agrees m a);
  mem = put_back (merge_prev (merge_next m a));
}

unfoldable pub bin_mem_free : BinMem → ℕ → Freed
unfolding is_gmem free_large free_chunk
bin_mem_free m p =
    let a = p - 8 in
    if is_gmem m a then record { raised = false; mem = free_large m (a - 24) } else free_chunk m a
