-- ===== src/BinMem/Alloc.antt =====
-- `bin_mem_alloc` of ksources/kci_bin_mem.cpp. `parent` is the parent of the context, or the heap
-- of the process: what it returns for a number of bytes. `grant` is what it returns for those that
-- `heap_bytes` gives for the request or for the step.
use nihao_github_io.Base.{
  ℕ, zero, suc, ◌+◌, ◌-◌, ◌*◌, ◌/◌, ◌%◌, ◌^◌, Bool, false, Option, none, some, List, [], ◌∷◌, ◌++◌,
  leb, if◌then◌else◌,
}
use nihao_github_io.Base.Int.{pos, ◌+ℤ◌}
use nihao_github_io.Base.Maps.{put}
use nihao_github_io.BinMem.{
  BinMem, bin_index, is_small, insert_into_bin, remove_from_bin, set_use, set_head, split_chunk,
  split_chunk0,
}

-- The address that is returned, and the context.
abbrev pub Allocated : Type 0
Allocated = Option ℕ × BinMem

-- `chunk2mem`
abbrev pub chunk2mem : ℕ → ℕ
chunk2mem a = a + 8

-- The bytes of the chunk: the size is of 32 bits, the sum of more.
unfoldable pub round_size : ℕ → ℕ
round_size si = (si + 23) / 8 * 8 % 2 ^ 32

-- What the parent is asked for, for `n` bytes behind a `MemHeap`: a sum as a `SizeT` of 32 bits.
unfoldable pub heap_bytes : ℕ → ℕ
heap_bytes n = (n + 24) % 2 ^ 32

unfoldable pub new_large : BinMem → ℕ → ℕ → BinMem
unfolding put
new_large m h siz = record m {
  given = put m.given h siz;
  heap_size = m.heap_size +ℤ pos siz;
  large_stub = m.large_stub ++ (h ∷ []);
  prev_size = put m.prev_size (h + 24) 1;
  size = put m.size (h + 24) siz;
  used = put m.used (h + 24) false;
  next_ok = put m.next_ok (h + 24) false;
  prev_ok = put m.prev_ok (h + 24) false;
}

unfoldable pub alloc_large : BinMem → ℕ → Option ℕ → Allocated
unfolding new_large
alloc_large m siz none = (none, m)
alloc_large m siz (some h) = (some (chunk2mem (h + 24)), new_large m h siz)

-- A chunk that has been taken off its bin.
unfoldable pub use_chunk : BinMem → ℕ → ℕ → Allocated
unfolding split_chunk set_use
use_chunk m a siz =
    (some (chunk2mem a), if leb (siz + 24) (m.size a) then split_chunk m a siz else set_use m a)

unfoldable pub use_chunk0 : BinMem → ℕ → ℕ → Allocated
unfolding split_chunk0 set_use
use_chunk0 m a siz =
    (some (chunk2mem a), if leb (siz + 24) (m.size a) then split_chunk0 m a siz else set_use m a)

-- The first chunk of a bin that is large enough.
unfoldable pub first_fit : (ℕ → ℕ) → ℕ → List ℕ → Option ℕ
first_fit size siz [] = none
first_fit size siz (a ∷ others) =
    let rest = first_fit size siz others in if leb siz (size a) then some a else rest

unfoldable pub new_heap : BinMem → ℕ → BinMem
unfolding set_head put
new_heap m h =
    let m1 = record m {
      given = put m.given h m.step;
      heap_size = m.heap_size +ℤ pos m.step;
      heap_stub = m.heap_stub ++ (h ∷ []);
      prev_size = put m.prev_size (h + 24) 0;
    } in
    set_head m1 (h + 24) false false false m.step

-- `alloc_top_chunk`
unfoldable pub alloc_top : BinMem → ℕ → Option ℕ → Allocated
unfolding new_heap use_chunk0
alloc_top m siz none = (none, m)
alloc_top m siz (some h) = use_chunk0 (new_heap m h) (h + 24) siz

-- The bins from `b` on, `n` of them.
unfoldable pub search_bins : ℕ → BinMem → ℕ → ℕ → Option ℕ → Allocated
unfolding alloc_top first_fit use_chunk0 remove_from_bin
search_bins zero m b siz grant = alloc_top m siz grant
search_bins (suc n) m b siz grant =
    let rest = search_bins n m (b + 1) siz grant in
    elim (first_fit m.size siz (m.bins b)) [
      | none ↦ rest
      | some a ↦ use_chunk0 (remove_from_bin m a) a siz
    ]

unfoldable pub search_up : BinMem → ℕ → ℕ → Option ℕ → Allocated
unfolding search_bins
search_up m b siz grant = search_bins (m.max_b_i + 1 - b) m b siz grant

-- The chunk that was cut last.
unfoldable pub try_recent : List ℕ → BinMem → ℕ → ℕ → Option ℕ → Allocated
unfolding search_up use_chunk0 insert_into_bin remove_from_bin
try_recent [] m b siz grant = search_up m b siz grant
try_recent (a ∷ rest) m b siz grant =
    let m' = remove_from_bin m a in
    if leb siz (m'.size a)
    then use_chunk0 m' a siz
    else search_up (insert_into_bin m' a) b siz grant

unfoldable pub alloc_recent : BinMem → ℕ → ℕ → Option ℕ → Allocated
unfolding try_recent
alloc_recent m b siz grant = try_recent (m.bins 0) m b siz grant

unfoldable pub take_small : List ℕ → BinMem → ℕ → ℕ → Option ℕ → Allocated
unfolding alloc_recent set_use remove_from_bin
take_small [] m b siz grant = alloc_recent m (b + 1) siz grant
take_small (a ∷ rest) m b siz grant = (some (chunk2mem a), set_use (remove_from_bin m a) a)

unfoldable pub small_bin : List ℕ → ℕ → ℕ
small_bin [] b = b + 1
small_bin (a ∷ rest) b = b

unfoldable pub alloc_small : BinMem → ℕ → Option ℕ → Allocated
unfolding take_small small_bin
alloc_small m siz grant =
    let b = small_bin (m.bins (siz / 8)) (siz / 8) in take_small (m.bins b) m b siz grant

unfoldable pub take_fit : Option ℕ → BinMem → ℕ → ℕ → Option ℕ → Allocated
unfolding alloc_recent use_chunk remove_from_bin
take_fit none m b siz grant = alloc_recent m (b + 1) siz grant
take_fit (some a) m b siz grant = use_chunk (remove_from_bin m a) a siz

unfoldable pub alloc_middle : BinMem → ℕ → Option ℕ → Allocated
unfolding take_fit first_fit bin_index
alloc_middle m siz grant =
    let b = bin_index siz in take_fit (first_fit m.size siz (m.bins b)) m b siz grant

-- `step - sizeof(Chunk)`, in 64 bits.
unfoldable pub is_large : BinMem → ℕ → Bool
is_large m siz = leb ((m.step + 2 ^ 64 - 24) % 2 ^ 64) siz

-- `parent` is what the parent returns for the bytes that it is asked for.
unfoldable pub bin_mem_alloc : BinMem → ℕ → (ℕ → Option ℕ) → Allocated
unfolding round_size alloc_large alloc_small alloc_middle is_large is_small heap_bytes
bin_mem_alloc m si parent =
    let siz = round_size si in
    if is_large m siz
    then alloc_large m siz (parent (heap_bytes siz))
    else if is_small siz
    then alloc_small m siz (parent (heap_bytes m.step))
    else alloc_middle m siz (parent (heap_bytes m.step))
