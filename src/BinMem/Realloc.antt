-- ===== src/BinMem/Realloc.antt =====
-- `bin_mem_realloc` of ksources/kci_bin_mem.cpp. `parent` is what the parent returns for a number
-- of bytes, `grant` what it returns for those of `heap_bytes`; it copies the header of a block of
-- its own.
use nihao_github_io.Base.{
  ℕ, ◌+◌, ◌-◌, ◌%◌, ◌^◌, Bool, true, false, not, ◌&&◌, Option, none, some, List, [], ◌∷◌, ◌++◌, ltb,
  leb, ◌==◌, if◌then◌else◌,
}
use nihao_github_io.Base.Int.{pos, ◌+ℤ◌, ◌-ℤ◌}
use nihao_github_io.Base.Maps.{put}
use nihao_github_io.LinkMem.{remove}
use nihao_github_io.BinMem.{
  BinMem, int32, is_gmem, insert_into_bin, insert_into_bin0, remove_from_bin, merge_chunk, clr_use,
}
use nihao_github_io.BinMem.Alloc.{
  Allocated, chunk2mem, heap_bytes, use_chunk, use_chunk0, bin_mem_alloc,
}
use nihao_github_io.BinMem.Free.{Merged}

-- The arguments of `memmove`.
pub record Move : Type 0 where
  pub target : ℕ
  pub origin : ℕ
  pub count : ℕ

-- The address that is returned, the context and the bytes that are moved.
pub record Resized : Type 0 where
  pub result : Option ℕ
  pub mem : BinMem
  pub moved : Option Move

unfoldable pub resize_round : ℕ → ℕ
resize_round si = let s = (si + 23) % 2 ^ 32 in s - s % 8

unfoldable pub resize_large : BinMem → ℕ → ℕ → Option ℕ → Allocated
unfolding put remove
resize_large m h siz none = (
  none,
  record m { heap_size = m.heap_size -ℤ int32 (m.given h); large_stub = remove h m.large_stub },
)
resize_large m h siz (some g) = (
  some (chunk2mem (g + 24)),
  record m {
    heap_size = m.heap_size -ℤ int32 (m.given h) +ℤ pos siz;
    large_stub = remove h m.large_stub ++ (g ∷ []);
    given = put m.given g siz;
    prev_size = put m.prev_size (g + 24) (m.prev_size (h + 24));
    size = put m.size (g + 24) (m.size (h + 24));
    used = put m.used (g + 24) (m.used (h + 24));
    next_ok = put m.next_ok (g + 24) (m.next_ok (h + 24));
    prev_ok = put m.prev_ok (g + 24) (m.prev_ok (h + 24));
  },
)

-- The last chunk of a list, if it is `a`.
unfoldable pub is_last : List ℕ → ℕ → Bool
is_last [] a = false
is_last (b ∷ []) a = b == a
is_last (b ∷ c ∷ bs) a = is_last (c ∷ bs) a

unfoldable pub merge_before : BinMem → ℕ → Merged
unfolding is_last remove_from_bin merge_chunk
merge_before m a =
    let p = a - m.prev_size a in
    if m.prev_ok a && not (m.used p)
    then record {
      mem = merge_chunk (remove_from_bin m p) p a;
      chunk = p;
      is_bin0 = is_last (m.bins 0) p;
    }
    else record { mem = m; chunk = a; is_bin0 = false }

unfoldable pub is_empty : List ℕ → Bool
is_empty [] = true
is_empty (a ∷ rest) = false

-- The old chunk goes on a list after its bytes have been copied.
unfoldable pub give_back : BinMem → ℕ → Bool → BinMem
unfolding clr_use insert_into_bin insert_into_bin0 is_empty
give_back m a is_bin0 =
    let m' = clr_use m a in
    if is_bin0 && not (is_empty (m'.bins 0)) then insert_into_bin0 m' a else insert_into_bin m' a

unfoldable pub move_block : Allocated → ℕ → Bool → ℕ → ℕ → Resized
unfolding give_back
move_block (none, m) a is_bin0 p_old count = record { result = none; mem = m; moved = none }
move_block (some p, m) a is_bin0 p_old count = record {
  result = some p;
  mem = give_back m a is_bin0;
  moved = some (record { target = p; origin = p_old; count = count });
}

unfoldable pub fit_or_move : Merged → ℕ → ℕ → ℕ → ℕ → (ℕ → Option ℕ) → Resized
unfolding use_chunk use_chunk0 move_block bin_mem_alloc
fit_or_move r p_old siz si old_size parent =
    let count = if ltb old_size si then old_size else si in
    if leb siz (r.mem.size r.chunk)
    then record {
      result = some (chunk2mem r.chunk);
      mem = if r.is_bin0 then (use_chunk0 r.mem r.chunk siz).1 else (use_chunk r.mem r.chunk siz).1;
      moved = some (record { target = chunk2mem r.chunk; origin = p_old; count = count });
    }
    else move_block (bin_mem_alloc r.mem si parent) r.chunk r.is_bin0 p_old count

unfoldable pub resize_chunk : BinMem → ℕ → ℕ → ℕ → (ℕ → Option ℕ) → Resized
unfolding use_chunk merge_before fit_or_move
resize_chunk m a siz si parent =
    if leb siz (m.size a)
    then record { result = some (chunk2mem a); mem = (use_chunk m a siz).1; moved = none }
    else fit_or_move (merge_before m a) (chunk2mem a) siz si (m.size a - 8) parent

-- A pointer of 0 is no block.
unfoldable pub bin_mem_realloc : BinMem → ℕ → ℕ → (ℕ → Option ℕ) → Resized
unfolding bin_mem_alloc is_gmem resize_large resize_chunk resize_round heap_bytes
bin_mem_realloc m p_old si parent =
    let new = bin_mem_alloc m si parent in
    let a = p_old - 8 in
    let large = resize_large m (a - 24) (resize_round si) (parent (heap_bytes (resize_round si))) in
    if p_old == 0
    then record { result = new.0; mem = new.1; moved = none }
    else if is_gmem m a
    then record { result = large.0; mem = large.1; moved = none }
    else resize_chunk m a (resize_round si) si parent
