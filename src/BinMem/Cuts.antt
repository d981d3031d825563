-- ===== src/BinMem/Cuts.antt =====
-- Chunks that are cut and merged, of ksources/kci_bin_mem.cpp.
use nihao_github_io.Base.{
  ℕ, ◌+◌, ◌-◌, ◌%◌, ◌≤◌, ◌<◌, ◌≡◌, refl, sym, subst, inl, inr, true, false, arith,
}
use nihao_github_io.Base.Maps.{put}
use nihao_github_io.BinMem.{BinMem, set_head, set_foot, cut_chunk, merge_chunk}
use nihao_github_io.BinMem.Tiles.{IsTiled, foot, cut-IsTiled, merge-IsTiled}
use nihao_github_io.BinMem.Headers.{same-IsTiled}
use nihao_github_io.BinMem.Kinds.{
  Kind, gap, loose, is_live, dead_gap, resize-IsBinned, turn-IsBinned, lose-IsBinned,
}
use nihao_github_io.BinMem.Homes.{no_big, cut-IsHoused, merge-IsHoused}
use nihao_github_io.BinMem.Valid.{IsBin, set_live}

module _ (m : BinMem) (kind : ℕ → Kind) (home : ℕ → ℕ) (v : IsBin m kind home) where
  -- Where a chunk is cut no other begins.
  pub inside_gap : (a b : ℕ) → is_live (kind a) ≡ true → a < b → b < a + m.size a → kind b ≡ gap
  inside_gap a b l lt gt = dead_gap (kind b) (ground (arith, lt, gt, v.tiled.apart a b l)) (
      no_big kind home m.size m.prev_size m.given m.next_ok m.prev_ok m.heap_stub m.large_stub
        m.step v.tiled v.housed a b l (omega arith) gt)

  cut_chunk-prev :
      (a siz : ℕ)
      → 24 ≤ siz
      → siz + 24 ≤ m.size a
      → (cut_chunk m a siz).prev_size
        ≡ foot (m.next_ok a) (put m.prev_size (a + siz) siz) (a + m.size a) (m.size a - siz)
  unfolding cut_chunk set_head set_foot put
  cut_chunk-prev a siz mi fits =
      let flag : put (put m.next_ok (a + siz) (m.next_ok a)) a true (a + siz) ≡ m.next_ok a =
        ground (arith, mi) in
      let place : a + siz + put (put m.size (a + siz) (m.size a - siz)) a siz (a + siz)
          ≡ a + m.size a =
        ground (arith, mi, fits) in
      λ i. foot (flag i) (put m.prev_size (a + siz) siz) (place i) (m.size a - siz)

  -- A chunk is cut in two.
  pub cut_chunk-IsBin :
      (a siz : ℕ)
      → kind a ≡ loose
      → siz % 8 ≡ 0
      → 24 ≤ siz
      → siz + 24 ≤ m.size a
      → IsBin (cut_chunk m a siz) (put kind (a + siz) loose) (put home (a + siz) (home a))
  unfolding cut_chunk set_head put is_live
  cut_chunk-IsBin a siz e al mi fits =
      let l : is_live (kind a) ≡ true = rw e refl in
      let hole : kind (a + siz) ≡ gap = inside_gap a (a + siz) l (omega arith) (omega arith) in
      record {
        tiled =
            subst
              (λ prev.
                IsTiled (λ b. is_live (put kind (a + siz) loose b)) (cut_chunk m a siz).size prev
                  (cut_chunk m a siz).next_ok (cut_chunk m a siz).prev_ok)
              (sym (cut_chunk-prev a siz mi fits))
              (same-IsTiled _ _ _ _ _ _
                (cut-IsTiled _ m.size m.prev_size m.next_ok m.prev_ok v.tiled a siz l al mi fits)
                (set_live kind (a + siz) loose true refl));
        in_lists =
            resize-IsBinned _ _ _ _
              (turn-IsBinned kind m.size m.used m.bins v.in_lists (a + siz) (m.size a - siz) false
                loose (inl hole) (inl refl))
              a siz true (ground (arith, e));
        housed =
            cut-IsHoused kind home m.size m.prev_size m.given m.next_ok m.prev_ok m.heap_stub
              m.large_stub m.step v.tiled v.housed a siz l mi fits (rw hole refl);
        big_mark = λ b h.
            subst (λ p. p b % 2 ≡ 1) (sym (cut_chunk-prev a siz mi fits))
              (ground (arith, h, e, v.big_mark b, v.tiled.next_live a l));
        step_aligned = v.step_aligned;
        step_min = v.step_min;
        step_max = v.step_max;
      }

  merge_chunk-prev :
      (a : ℕ)
      → (merge_chunk m a (a + m.size a)).prev_size
        ≡ foot
            (m.next_ok (a + m.size a))
            m.prev_size
            (a + (m.size a + m.size (a + m.size a)))
            (m.size a + m.size (a + m.size a))
  unfolding merge_chunk set_head set_foot put
  merge_chunk-prev a =
      let both = m.size a + m.size (a + m.size a) in
      let flag : put m.next_ok a (m.next_ok (a + m.size a)) a ≡ m.next_ok (a + m.size a) =
        ground arith in
      let place : a + put m.size a both a ≡ a + both = ground arith in
      λ i. foot (flag i) m.prev_size (place i) both

  -- A chunk grows by the one that follows it.
  pub merge_chunk-IsBin :
      (a : ℕ)
      → kind a ≡ loose
      → kind (a + m.size a) ≡ loose
      → m.next_ok a ≡ true
      → IsBin (merge_chunk m a (a + m.size a)) (put kind (a + m.size a) gap) home
  unfolding merge_chunk set_head put is_live
  merge_chunk-IsBin a e f nx =
      let l : is_live (kind a) ≡ true = rw e refl in
      let lb : is_live (kind (a + m.size a)) ≡ true = rw f refl in
      let b = a + m.size a in
      let both = m.size a + m.size b in
      let mi = v.tiled.min_size a l in
      record {
        tiled =
            subst
              (λ prev.
                IsTiled (λ c. is_live (put kind b gap c)) (merge_chunk m a b).size prev
                  (merge_chunk m a b).next_ok (merge_chunk m a b).prev_ok)
              (sym (merge_chunk-prev a))
              (same-IsTiled _ _ _ _ _ _
                (merge-IsTiled _ m.size m.prev_size m.next_ok m.prev_ok v.tiled a l nx)
                (set_live kind b gap false refl));
        in_lists =
            lose-IsBinned _ _ _ _
              (resize-IsBinned kind m.size m.used m.bins v.in_lists a both false e) b gap
              (inr (inl f)) (inr refl);
        housed =
            merge-IsHoused kind home m.size m.prev_size m.given m.next_ok m.prev_ok m.heap_stub
              m.large_stub m.step v.tiled v.housed a l nx;
        big_mark = λ c h.
            subst (λ p. p c % 2 ≡ 1) (sym (merge_chunk-prev a))
              (ground (arith, h, e, v.big_mark c, v.tiled.next_live b lb));
        step_aligned = v.step_aligned;
        step_min = v.step_min;
        step_max = v.step_max;
      }
