-- ===== src/BinMem/HeapSteps.antt =====
-- The steps of ksources/kci_bin_mem.cpp that take and give back heaps.
use nihao_github_io.Base.{
  ℕ, ◌+◌, ◌-◌, ◌%◌, ◌≤◌, ◌≡◌, refl, inl, inr, Bool, true, false, List, [], ◌∷◌, ◌++◌, arith,
}
use nihao_github_io.Base.Int.{ℤ}
use nihao_github_io.Base.Maps.{put}
use nihao_github_io.BinMem.{BinMem, set_head, free_heap, free_large}
use nihao_github_io.BinMem.Alloc.{new_heap, new_large}
use nihao_github_io.BinMem.Headers.{write-IsTiled, new-IsTiled, drop-IsTiled, same-IsTiled}
use nihao_github_io.BinMem.Kinds.{Kind, gap, loose, big, is_live, turn-IsBinned, lose-IsBinned}
use nihao_github_io.BinMem.Homes.{IsFresh, whole_home, drop-IsHoused}
use nihao_github_io.BinMem.Grants.{fresh_gap, new-IsHoused, new_large-IsHoused, free_large-IsHoused}
use nihao_github_io.BinMem.Valid.{IsBin, set_live, keep_live, keep-IsTiled}

module _ (m : BinMem) (kind : ℕ → Kind) (home : ℕ → ℕ) (v : IsBin m kind home) where
  -- A heap that is one free chunk goes back.
  pub free_heap-IsBin :
      (a : ℕ)
      → kind a ≡ loose
      → m.size a ≡ m.step
      → IsBin (free_heap m (a - 24)) (put kind a gap) home
  unfolding free_heap put is_live
  free_heap-IsBin a e whole =
      let l : is_live (kind a) ≡ true = rw e refl in
      let w =
        whole_home kind home m.size m.prev_size m.given m.next_ok m.prev_ok m.heap_stub m.large_stub
          m.step v.tiled v.housed a l whole in
      record {
        tiled =
            same-IsTiled _ _ _ _ _ _
              (drop-IsTiled _ m.size m.prev_size m.next_ok m.prev_ok v.tiled a l w.1.0 w.1.1)
              (set_live kind a gap false refl);
        in_lists =
            lose-IsBinned kind m.size m.used m.bins v.in_lists a gap (inr (inl e)) (inr refl);
        housed =
            drop-IsHoused kind home m.size m.prev_size m.given m.next_ok m.prev_ok m.heap_stub
              m.large_stub m.step v.tiled v.housed a l whole;
        big_mark = λ b h. ground (arith, h, v.big_mark b);
        step_aligned = v.step_aligned;
        step_min = v.step_min;
        step_max = v.step_max;
      }

  -- The parent grants a heap.
  pub new_heap-IsBin :
      (h : ℕ)
      → IsFresh m.given m.heap_stub m.large_stub m.step h m.step
      → IsBin (new_heap m h) (put kind (h + 24) loose) (put home (h + 24) h)
  unfolding new_heap set_head put is_live
  new_heap-IsBin h f =
      let some_bytes : 1 ≤ m.step = ground (arith, v.step_min) in
      let hole =
        fresh_gap kind home m.size m.prev_size m.given m.next_ok m.prev_ok m.heap_stub m.large_stub
          m.step v.tiled v.housed h m.step some_bytes f in
      record {
        tiled =
            same-IsTiled _ _ _ _ _ _
              (new-IsTiled _ m.size m.prev_size m.next_ok m.prev_ok v.tiled (h + 24) m.step
                v.step_aligned (ground (arith, v.step_min))
                (λ b q. ground (
                  arith,
                  q,
                  v.housed.listed b,
                  v.housed.low b,
                  v.housed.high b,
                  f.from_heaps (home b),
                )))
              (set_live kind (h + 24) loose true refl);
        in_lists =
            turn-IsBinned kind m.size m.used m.bins v.in_lists (h + 24) m.step false loose
              (inl hole) (inl refl);
        housed =
            new-IsHoused kind home m.size m.prev_size m.given m.next_ok m.prev_ok m.heap_stub
              m.large_stub m.step v.tiled v.housed h some_bytes f;
        big_mark = λ b g. ground (arith, g, v.big_mark b);
        step_aligned = v.step_aligned;
        step_min = v.step_min;
        step_max = v.step_max;
      }

  -- The parent grants a block of its own, whose header has the mark.
  pub put_large-IsBin :
      (h n s p : ℕ) (u x y : Bool) (total : ℤ) (back : List ℕ)
      → 1 ≤ n
      → p % 2 ≡ 1
      → IsFresh m.given m.heap_stub m.large_stub m.step h n
      → IsBin
          (record m {
            given = put m.given h n;
            heap_size = total;
            large_stub = m.large_stub ++ (h ∷ []);
            prev_size = put m.prev_size (h + 24) p;
            size = put m.size (h + 24) s;
            used = put m.used (h + 24) u;
            next_ok = put m.next_ok (h + 24) x;
            prev_ok = put m.prev_ok (h + 24) y;
            returned = back;
          })
          (put kind (h + 24) big)
          home
  unfolding put is_live
  put_large-IsBin h n s p u x y total back some_bytes mark f =
      let hole =
        fresh_gap kind home m.size m.prev_size m.given m.next_ok m.prev_ok m.heap_stub m.large_stub
          m.step v.tiled v.housed h n some_bytes f in
      record {
        tiled =
            same-IsTiled _ _ _ _ _ _
              (write-IsTiled _ m.size m.prev_size m.next_ok m.prev_ok v.tiled (h + 24) s p x y
                (rw hole refl))
              (keep_live kind (h + 24) big (rw hole refl));
        in_lists =
            turn-IsBinned kind m.size m.used m.bins v.in_lists (h + 24) s u big (inl hole)
              (inr (inl refl));
        housed =
            new_large-IsHoused kind home m.size m.prev_size m.given m.next_ok m.prev_ok m.heap_stub
              m.large_stub m.step v.tiled v.housed h n s x some_bytes f;
        big_mark = λ b g. ground (arith, g, mark, v.big_mark b);
        step_aligned = v.step_aligned;
        step_min = v.step_min;
        step_max = v.step_max;
      }

  pub new_large-IsBin :
      (h n : ℕ)
      → 1 ≤ n
      → IsFresh m.given m.heap_stub m.large_stub m.step h n
      → IsBin (new_large m h n) (put kind (h + 24) big) home
  unfolding new_large put
  new_large-IsBin h n some_bytes f = put_large-IsBin h n n 1 false false false _ _ some_bytes refl f

  pub free_large-IsBin :
      (a : ℕ) → kind a ≡ big → IsBin (free_large m (a - 24)) (put kind a gap) home
  unfolding free_large put is_live
  free_large-IsBin a e = record {
    tiled = keep-IsTiled m kind home v a gap (rw e refl);
    in_lists = lose-IsBinned kind m.size m.used m.bins v.in_lists a gap (inr (inr e)) (inr refl);
    housed =
        free_large-IsHoused kind home m.size m.prev_size m.given m.next_ok m.prev_ok m.heap_stub
          m.large_stub m.step v.tiled v.housed a e;
    big_mark = λ b h. ground (arith, h, v.big_mark b);
    step_aligned = v.step_aligned;
    step_min = v.step_min;
    step_max = v.step_max;
  }
