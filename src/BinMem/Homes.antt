-- ===== src/BinMem/Homes.antt =====
-- The heaps of ksources/kci_bin_mem.cpp, apart from one another, and the chunks in them.
use nihao_github_io.Base.{ℕ, ◌+◌, ◌-◌, ◌≤◌, ◌<◌, ◌^◌, ◌≡◌, ◌≢◌, ◌⊎◌, Bool, true, false, List, arith}
use nihao_github_io.Base.Maps.{put}
use nihao_github_io.LinkMem.{remove}
use nihao_github_io.LinkMem.Times.{times_in, times_remove}
use nihao_github_io.BinMem.Alloc.{heap_bytes}
use nihao_github_io.BinMem.Tiles.{IsTiled}
use nihao_github_io.BinMem.Kinds.{Kind, gap, loose, big, is_live}

-- `home` is the heap of a chunk, whose chunks begin 24 bytes behind its own address.
pub record IsHoused (kind : ℕ → Kind) (home size given : ℕ → ℕ) (next_ok : ℕ → Bool)
    (heaps larges : List ℕ) (step : ℕ) : Type 0 where
  pub listed : (a : ℕ) → is_live (kind a) ≡ true → times_in (home a) heaps ≡ 1
  pub low : (a : ℕ) → is_live (kind a) ≡ true → home a + 24 ≤ a
  pub high : (a : ℕ) → is_live (kind a) ≡ true → a + size a ≤ home a + 24 + step
  pub next_home : (a : ℕ) → is_live (kind a) ≡ true → next_ok a ≡ true → home (a + size a) ≡ home a
  pub big_listed : (a : ℕ) → kind a ≡ big → times_in (a - 24) larges ≡ 1
  pub big_low : (a : ℕ) → kind a ≡ big → 24 ≤ a
  pub heap_once : (h : ℕ) → times_in h heaps ≤ 1
  pub large_once : (h : ℕ) → times_in h larges ≤ 1
  pub heaps_apart :
      (h x : ℕ) → 1 ≤ times_in h heaps → 1 ≤ times_in x heaps → h < x → h + 24 + step ≤ x
  pub large_apart :
      (h x : ℕ)
      → 1 ≤ times_in h heaps
      → 1 ≤ times_in x larges
      → (h + 24 + step ≤ x) ⊎ (x + 24 + given x ≤ h)
  pub larges_apart :
      (h x : ℕ) → 1 ≤ times_in h larges → 1 ≤ times_in x larges → h < x → h + 24 + given h ≤ x

-- What the parent grants, `n` bytes from `h` on, is apart from what it has granted before and not
-- got back.
pub record IsGranted (given : ℕ → ℕ) (heaps larges : List ℕ) (step h n : ℕ) : Type 0 where
  pub from_heaps : (x : ℕ) → 1 ≤ times_in x heaps → (x + 24 + step ≤ h) ⊎ (h + n ≤ x)
  pub from_larges : (x : ℕ) → 1 ≤ times_in x larges → (x + 24 + given x ≤ h) ⊎ (h + n ≤ x)

-- The same of a header and the `n` bytes behind it.
pub record IsFresh (given : ℕ → ℕ) (heaps larges : List ℕ) (step h n : ℕ) : Type 0 where
  pub from_heaps : (x : ℕ) → 1 ≤ times_in x heaps → (x + 24 + step ≤ h) ⊎ (h + 24 + n ≤ x)
  pub from_larges : (x : ℕ) → 1 ≤ times_in x larges → (x + 24 + given x ≤ h) ⊎ (h + 24 + n ≤ x)

-- Where its size is one of 32 bits, the heap that is asked for is the one that is made.
pub heap_bytes-IsFresh :
    (given : ℕ → ℕ) (heaps larges : List ℕ) (step h n : ℕ)
    → n + 24 < 2 ^ 32
    → IsGranted given heaps larges step h (heap_bytes n)
    → IsFresh given heaps larges step h n
unfolding heap_bytes
heap_bytes-IsFresh given heaps larges step h n lt v = record {
  from_heaps = λ x l. ground (arith, lt, v.from_heaps x l);
  from_larges = λ x l. ground (arith, lt, v.from_larges x l);
}

module _ (kind : ℕ → Kind) (home size prev given : ℕ → ℕ) (next_ok prev_ok : ℕ → Bool)
    (heaps larges : List ℕ) (step : ℕ)
    (t : IsTiled (λ a. is_live (kind a)) size prev next_ok prev_ok)
    (v : IsHoused kind home size given next_ok heaps larges step) where
  -- The kind of a chunk changes.
  pub kind-IsHoused :
      (a : ℕ) (w : Kind)
      → is_live (kind a) ≡ true
      → is_live w ≡ true
      → IsHoused (put kind a w) home size given next_ok heaps larges step
  unfolding put is_live
  kind-IsHoused a w l l' = record {
    listed = λ b h. ground (arith, l, h, v.listed b);
    low = λ b h. ground (arith, l, h, v.low b);
    high = λ b h. ground (arith, l, h, v.high b);
    next_home = λ b h n. ground (arith, l, h, n, v.next_home b);
    big_listed = λ b h. ground (arith, l', h, v.big_listed b);
    big_low = λ b h. ground (arith, l', h, v.big_low b);
    heap_once = v.heap_once;
    large_once = v.large_once;
    heaps_apart = v.heaps_apart;
    large_apart = v.large_apart;
    larges_apart = v.larges_apart;
  }

  -- No block of its own lies in a heap.
  pub no_big : (a b : ℕ) → is_live (kind a) ≡ true → a ≤ b → b < a + size a → kind b ≢ big
  no_big a b l le lt e = ground (
    arith,
    v.low a l,
    v.high a l,
    v.big_low b e,
    v.large_apart (home a) (b - 24),
    v.listed a l,
    v.big_listed b e,
  )

  -- A chunk is cut in two.
  pub cut-IsHoused :
      (a siz : ℕ)
      → is_live (kind a) ≡ true
      → 24 ≤ siz
      → siz + 24 ≤ size a
      → is_live (kind (a + siz)) ≡ false
      → IsHoused
          (put kind (a + siz) loose)
          (put home (a + siz) (home a))
          (put (put size (a + siz) (size a - siz)) a siz)
          given
          (put (put next_ok (a + siz) (next_ok a)) a true)
          heaps
          larges
          step
  unfolding put is_live
  cut-IsHoused a siz l mi fits dead = record {
    listed = λ b h. ground (arith, l, h, v.listed b, v.listed a l);
    low = λ b h. ground (arith, l, h, v.low b, v.low a l);
    high = λ b h. ground (arith, l, h, fits, v.high b, v.high a l);
    next_home = λ b h n. ground (
      arith,
      l,
      h,
      n,
      fits,
      mi,
      dead,
      v.next_home b,
      v.next_home a l,
      t.next_live b,
      t.next_live a l,
      t.apart a b l,
      t.apart b a,
      t.min_size b,
    );
    big_listed = λ b h. ground (arith, h, v.big_listed b);
    big_low = λ b h. ground (arith, h, v.big_low b);
    heap_once = v.heap_once;
    large_once = v.large_once;
    heaps_apart = v.heaps_apart;
    large_apart = v.large_apart;
    larges_apart = v.larges_apart;
  }

  -- Two neighbours become one chunk.
  pub merge-IsHoused :
      (a : ℕ)
      → is_live (kind a) ≡ true
      → next_ok a ≡ true
      → IsHoused
          (put kind (a + size a) gap)
          home
          (put size a (size a + size (a + size a)))
          given
          (put next_ok a (next_ok (a + size a)))
          heaps
          larges
          step
  unfolding put is_live
  merge-IsHoused a l nx =
      let lb = t.next_live a l nx in
      record {
        listed = λ b h. ground (arith, l, h, v.listed b);
        low = λ b h. ground (arith, l, h, v.low b);
        high = λ b h. ground (arith, l, h, v.high b, v.high (a + size a) lb, v.next_home a l nx);
        next_home = λ b h n.
            ground (arith, l, h, n, v.next_home b, v.next_home (a + size a) lb, v.next_home a l nx);
        big_listed = λ b h. ground (arith, h, v.big_listed b);
        big_low = λ b h. ground (arith, h, v.big_low b);
        heap_once = v.heap_once;
        large_once = v.large_once;
        heaps_apart = v.heaps_apart;
        large_apart = v.large_apart;
        larges_apart = v.larges_apart;
      }

  -- A chunk as large as a heap is all of it, and has no neighbours.
  pub whole_home :
      (a : ℕ)
      → is_live (kind a) ≡ true
      → size a ≡ step
      → (home a + 24 ≡ a) × ((next_ok a ≡ false) × (prev_ok a ≡ false))
  whole_home a l e =
      let first : home a + 24 ≡ a = ground (arith, v.low a l, v.high a l, e) in
      (
        first,
        (
          ground (
            arith,
            first,
            e,
            t.next_live a l,
            t.min_size (a + size a),
            v.next_home a l,
            v.high (a + size a),
          ),
          ground (
            arith,
            first,
            e,
            t.prev_le a l,
            t.prev_live a l,
            t.prev_knows a l,
            t.prev_size a l,
            t.min_size (a - prev a),
            v.next_home (a - prev a),
            v.low (a - prev a),
          ),
        ),
      )

  -- A heap that is one chunk goes.
  pub drop-IsHoused :
      (a : ℕ)
      → is_live (kind a) ≡ true
      → size a ≡ step
      → IsHoused (put kind a gap) home size given next_ok (remove (a - 24) heaps) larges step
  unfolding put is_live
  drop-IsHoused a l e =
      let w = whole_home a l e in
      record {
        listed = λ b h. ground (
          arith,
          l,
          h,
          e,
          w,
          v.listed b,
          v.low b,
          v.high b,
          t.apart a b l,
          t.apart b a,
          t.min_size b,
          times_remove (a - 24) (home b) heaps,
        );
        low = λ b h. ground (arith, l, h, v.low b);
        high = λ b h. ground (arith, l, h, v.high b);
        next_home = λ b h n. ground (arith, l, h, n, v.next_home b);
        big_listed = λ b h. ground (arith, h, v.big_listed b);
        big_low = λ b h. ground (arith, h, v.big_low b);
        heap_once = λ h. ground (arith, v.heap_once h, times_remove (a - 24) h heaps);
        large_once = v.large_once;
        heaps_apart = λ h x i j lt. ground (
          arith,
          i,
          j,
          lt,
          v.heaps_apart h x,
          times_remove (a - 24) h heaps,
          times_remove (a - 24) x heaps,
        );
        large_apart =
            λ h x i j. ground (arith, i, j, v.large_apart h x, times_remove (a - 24) h heaps);
        larges_apart = v.larges_apart;
      }
