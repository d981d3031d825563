-- ===== src/BinMem.antt =====
-- The bins of ksources/kci_bin_mem.cpp. An address is a number, and a field of the chunk headers a
-- function from their addresses; `size` is without the three low bits of the word in the source,
-- which are `used`, `next_ok` and `prev_ok`.
pub mod Alloc
pub mod Free
pub mod Realloc
pub mod Tiles
pub mod Headers
pub mod Kinds
pub mod Homes
pub mod Grants
pub mod Valid
pub mod Cuts
pub mod HeapSteps
pub mod Blocks
pub mod Serve
pub mod Search
pub mod Requests
pub mod Release
pub mod Returned
pub mod Resize
pub mod Fits
pub mod Resizing
pub mod History
pub mod Reached
pub mod Tests
use nihao_github_io.Base.{
  ℕ, zero, suc, ◌+◌, ◌-◌, ◌*◌, ◌/◌, ◌%◌, ◌^◌, Bool, true, false, not, ◌&&◌, ◌||◌, Option, none,
  some, List, [], ◌∷◌, ◌++◌, length, ltb, leb, ◌==◌, if◌then◌else◌,
}
use nihao_github_io.Base.Int.{ℤ, pos, negsuc, ◌+ℤ◌, ◌-ℤ◌}
use nihao_github_io.Base.Maps.{put}
use nihao_github_io.LinkMem.{remove}

-- `heap_stub` and `large_stub` are the lists of the heaps, `given` the field `heap_size` of a heap.
-- `returned` has the heaps that the parent has got back.
pub record BinMem : Type 0 where
  pub step : ℕ
  pub max_b_i : ℕ
  pub heap_size : ℤ
  pub heap_stub : List ℕ
  pub large_stub : List ℕ
  pub given : ℕ → ℕ
  pub size : ℕ → ℕ
  pub prev_size : ℕ → ℕ
  pub used : ℕ → Bool
  pub next_ok : ℕ → Bool
  pub prev_ok : ℕ → Bool
  pub bins : ℕ → List ℕ
  pub returned : List ℕ

unfoldable pub bin_index : ℕ → ℕ
bin_index sz =
    if sz / 512 == 0
    then sz / 8
    else if leb (sz / 512) 4
    then 56 + sz / 64
    else if leb (sz / 512) 20
    then 91 + sz / 512
    else if leb (sz / 512) 84
    then 110 + sz / 4096
    else if leb (sz / 512) 340
    then 119 + sz / 32768
    else if leb (sz / 512) 1364
    then 124 + sz / 262144
    else 126

unfoldable pub is_small : ℕ → Bool
is_small siz = ltb siz (512 - 8)

-- The macros on lists and flags.
unfoldable pub insert : BinMem → ℕ → ℕ → BinMem
unfolding put
insert m b a = record m { bins = put m.bins b (m.bins b ++ (a ∷ [])) }

unfoldable pub insert_into_bin0 : BinMem → ℕ → BinMem
unfolding insert
insert_into_bin0 m a = insert m 0 a

unfoldable pub insert_into_bin : BinMem → ℕ → BinMem
unfolding insert bin_index
insert_into_bin m a = insert m (bin_index (m.size a)) a

-- A chunk is on one list at most, whose number the macro does not need.
unfoldable pub remove_from_bin : BinMem → ℕ → BinMem
unfolding remove
remove_from_bin m a = record m { bins = λ i. remove a (m.bins i) }

unfoldable pub set_use : BinMem → ℕ → BinMem
unfolding put
set_use m a = record m { used = put m.used a true }

unfoldable pub clr_use : BinMem → ℕ → BinMem
unfolding put
clr_use m a = record m { used = put m.used a false }

-- `SetHead` and `SetFoot`.
unfoldable pub set_head : BinMem → ℕ → Bool → Bool → Bool → ℕ → BinMem
unfolding put
set_head m a in_use next prev siz = record m {
  size = put m.size a siz;
  used = put m.used a in_use;
  next_ok = put m.next_ok a next;
  prev_ok = put m.prev_ok a prev;
}

unfoldable pub set_foot : BinMem → ℕ → ℕ → BinMem
unfolding put
set_foot m a siz = record m {
  prev_size = if m.next_ok a then put m.prev_size (a + m.size a) siz else m.prev_size;
}

-- The part of `split_chunk` and `split_chunk0` before the insertion.
unfoldable pub cut_chunk : BinMem → ℕ → ℕ → BinMem
unfolding set_head set_foot put
cut_chunk m a siz =
    let p_new = a + siz in
    let more = m.size a - siz in
    let m1 = set_head m p_new false (m.next_ok a) true more in
    let m2 = set_head m1 a true true (m.prev_ok a) siz in
    set_foot (record m2 { prev_size = put m2.prev_size p_new siz }) p_new more

unfoldable pub split_chunk : BinMem → ℕ → ℕ → BinMem
unfolding cut_chunk insert_into_bin
split_chunk m a siz = insert_into_bin (cut_chunk m a siz) (a + siz)

unfoldable pub split_chunk0 : BinMem → ℕ → ℕ → BinMem
unfolding cut_chunk insert_into_bin0
split_chunk0 m a siz = insert_into_bin0 (cut_chunk m a siz) (a + siz)

unfoldable pub merge_chunk : BinMem → ℕ → ℕ → BinMem
unfolding set_head set_foot
merge_chunk m a b =
    let new_siz = m.size a + m.size b in
    set_foot (set_head m a false (m.next_ok b) (m.prev_ok a) new_siz) a new_siz

-- `bins` is told the context's step; the lists are empty.
unfoldable pub init_bin_mem : ℕ → BinMem
unfolding bin_index
init_bin_mem step = record {
  step = step;
  max_b_i = bin_index step;
  heap_size = pos 0;
  heap_stub = [];
  large_stub = [];
  given = λ h. 0;
  size = λ a. 0;
  prev_size = λ a. 0;
  used = λ a. false;
  next_ok = λ a. false;
  prev_ok = λ a. false;
  bins = λ i. [];
  returned = [];
}

-- The `int32` of 32 bits, as the field `heap_size` of a heap is read.
unfoldable pub int32 : ℕ → ℤ
int32 n = if ltb n (2 ^ 31) then pos n else negsuc (2 ^ 32 - 1 - n)

-- `IsGMem`
unfoldable pub is_gmem : BinMem → ℕ → Bool
is_gmem m a = m.prev_size a % 2 == 1

-- A heap is taken off its list and given back.
unfoldable pub free_heap : BinMem → ℕ → BinMem
unfolding remove
free_heap m h = record m {
  heap_size = m.heap_size -ℤ int32 (m.given h);
  heap_stub = remove h m.heap_stub;
  returned = m.returned ++ (h ∷ []);
}

unfoldable pub free_large : BinMem → ℕ → BinMem
unfolding remove
free_large m h = record m {
  heap_size = m.heap_size -ℤ int32 (m.given h);
  large_stub = remove h m.large_stub;
  returned = m.returned ++ (h ∷ []);
}

-- `reset_bin_mem_context`: the heaps are given back from the first to the last.
unfoldable pub reset_bin_mem_context : BinMem → BinMem
reset_bin_mem_context m = record m {
  returned = m.returned ++ m.heap_stub ++ m.large_stub;
  bins = λ i. [];
  heap_stub = [];
  large_stub = [];
  heap_size = pos 0;
}

-- `clr_bin_mem_context`: the lists of the bins stay as they are.
unfoldable pub clr_bin_mem_context : BinMem → BinMem
clr_bin_mem_context m = record m {
  returned = m.returned ++ m.heap_stub ++ m.large_stub;
  heap_stub = [];
  large_stub = [];
  heap_size = pos 0;
}
