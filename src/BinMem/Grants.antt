-- ===== src/BinMem/Grants.antt =====
-- Heaps and blocks that the parent of a context grants, of ksources/kci_bin_mem.cpp.
use nihao_github_io.Base.{
  ℕ, ◌+◌, ◌-◌, ◌≤◌, ◌≡◌, ◌≢◌, subst, Bool, false, List, [], ◌∷◌, ◌++◌, arith,
}
use nihao_github_io.Base.Maps.{put}
use nihao_github_io.LinkMem.{remove}
use nihao_github_io.LinkMem.Times.{times_in, times_remove, times_snoc}
use nihao_github_io.BinMem.Tiles.{IsTiled}
use nihao_github_io.BinMem.Kinds.{Kind, gap, loose, big, is_live, dead_gap}
use nihao_github_io.BinMem.Homes.{IsHoused, IsFresh}

module _ (kind : ℕ → Kind) (home size prev given : ℕ → ℕ) (next_ok prev_ok : ℕ → Bool)
    (heaps larges : List ℕ) (step : ℕ)
    (t : IsTiled (λ a. is_live (kind a)) size prev next_ok prev_ok)
    (v : IsHoused kind home size given next_ok heaps larges step) where
  -- No chunk begins where the parent grants a new one, and no block of its own.
  pub fresh_dead :
      (h n : ℕ) → 1 ≤ n → IsFresh given heaps larges step h n → is_live (kind (h + 24)) ≡ false
  fresh_dead h n some_bytes f = ground (
    arith,
    some_bytes,
    f.from_heaps (home (h + 24)),
    v.listed (h + 24),
    v.low (h + 24),
    v.high (h + 24),
    t.min_size (h + 24),
  )

  fresh_no_big : (h n : ℕ) → IsFresh given heaps larges step h n → kind (h + 24) ≢ big
  fresh_no_big h n f e =
      let there : times_in h larges ≡ 1 =
        subst (λ x. times_in x larges ≡ 1) (omega arith) (v.big_listed (h + 24) e) in
      ground (arith, there, f.from_larges h)

  pub fresh_gap : (h n : ℕ) → 1 ≤ n → IsFresh given heaps larges step h n → kind (h + 24) ≡ gap
  fresh_gap h n some_bytes f =
      dead_gap (kind (h + 24)) (fresh_dead h n some_bytes f) (fresh_no_big h n f)

  -- A heap of one chunk.
  pub new-IsHoused :
      (h : ℕ)
      → 1 ≤ step
      → IsFresh given heaps larges step h step
      → IsHoused
          (put kind (h + 24) loose)
          (put home (h + 24) h)
          (put size (h + 24) step)
          (put given h step)
          (put next_ok (h + 24) false)
          (heaps ++ (h ∷ []))
          larges
          step
  unfolding put is_live
  new-IsHoused h big_step f =
      let no_heap : times_in h heaps ≡ 0 = ground (arith, f.from_heaps h) in
      let no_large : times_in h larges ≡ 0 = ground (arith, f.from_larges h) in
      let dead = fresh_dead h step big_step f in
      record {
        listed = λ b q.
            ground
              (arith, q, no_heap, v.listed b, times_snoc h (home b) heaps, times_snoc h h heaps);
        low = λ b q. ground (arith, q, v.low b);
        high = λ b q. ground (arith, q, v.high b);
        next_home = λ b q n. ground (arith, q, n, dead, v.next_home b, t.next_live b);
        big_listed = λ b q. ground (arith, q, v.big_listed b);
        big_low = λ b q. ground (arith, q, v.big_low b);
        heap_once = λ x. ground (arith, no_heap, v.heap_once x, times_snoc h x heaps);
        large_once = v.large_once;
        heaps_apart = λ x y i j lt. ground (
          arith,
          i,
          j,
          lt,
          v.heaps_apart x y,
          f.from_heaps x,
          f.from_heaps y,
          times_snoc h x heaps,
          times_snoc h y heaps,
        );
        large_apart = λ x y i j.
            ground
              (arith, i, j, no_large, v.large_apart x y, f.from_larges y, times_snoc h x heaps);
        larges_apart = λ x y i j lt. ground (arith, i, j, lt, no_large, v.larges_apart x y);
      }

  -- A block of its own.
  pub new_large-IsHoused :
      (h n s : ℕ) (x : Bool)
      → 1 ≤ n
      → IsFresh given heaps larges step h n
      → IsHoused
          (put kind (h + 24) big)
          home
          (put size (h + 24) s)
          (put given h n)
          (put next_ok (h + 24) x)
          heaps
          (larges ++ (h ∷ []))
          step
  unfolding put is_live
  new_large-IsHoused h n s x some_bytes f =
      let dead = fresh_dead h n some_bytes f in
      let no_large : times_in h larges ≡ 0 = ground (arith, f.from_larges h) in
      record {
        listed = λ b q. ground (arith, q, v.listed b);
        low = λ b q. ground (arith, q, v.low b);
        high = λ b q. ground (arith, q, v.high b);
        next_home = λ b q n. ground (arith, q, n, v.next_home b);
        big_listed = λ b q.
            ground (arith, q, no_large, v.big_listed b, v.big_low b, times_snoc h (b - 24) larges);
        big_low = λ b q. ground (arith, q, v.big_low b);
        heap_once = v.heap_once;
        large_once = λ x. ground (arith, no_large, v.large_once x, times_snoc h x larges);
        heaps_apart = v.heaps_apart;
        large_apart = λ x y i j.
            ground
              (arith, i, j, no_large, v.large_apart x y, f.from_heaps x, times_snoc h y larges);
        larges_apart = λ x y i j lt. ground (
          arith,
          i,
          j,
          lt,
          no_large,
          v.larges_apart x y,
          f.from_larges x,
          f.from_larges y,
          times_snoc h x larges,
          times_snoc h y larges,
        );
      }

  pub free_large-IsHoused :
      (a : ℕ)
      → kind a ≡ big
      → IsHoused (put kind a gap) home size given next_ok heaps (remove (a - 24) larges) step
  unfolding put is_live
  free_large-IsHoused a e = record {
    listed = λ b q. ground (arith, q, v.listed b);
    low = λ b q. ground (arith, q, v.low b);
    high = λ b q. ground (arith, q, v.high b);
    next_home = λ b q n. ground (arith, q, n, v.next_home b);
    big_listed = λ b q. ground (
      arith,
      q,
      v.big_low a e,
      v.big_low b,
      v.big_listed b,
      times_remove (a - 24) (b - 24) larges,
    );
    big_low = λ b q. ground (arith, q, v.big_low b);
    heap_once = v.heap_once;
    large_once = λ x. ground (arith, v.large_once x, times_remove (a - 24) x larges);
    heaps_apart = v.heaps_apart;
    large_apart =
        λ x y i j. ground (arith, i, j, v.large_apart x y, times_remove (a - 24) y larges);
    larges_apart = λ x y i j lt. ground (
      arith,
      i,
      j,
      lt,
      v.larges_apart x y,
      times_remove (a - 24) x larges,
      times_remove (a - 24) y larges,
    );
  }
