-- ===== src/BinMem/Kinds.antt =====
-- What the chunks of ksources/kci_bin_mem.cpp are in use for, and the lists of the free ones.
use nihao_github_io.Base.{
  ℕ, ◌≡◌, ◌≢◌, refl, ◌⊎◌, Bool, true, false, List, [], ◌∷◌, ◌++◌, ◌==◌, if◌then◌else◌, arith,
}
use nihao_github_io.Base.Maps.{put}
use nihao_github_io.LinkMem.{remove}
use nihao_github_io.LinkMem.Times.{times_in, times_remove, times_snoc}
use nihao_github_io.BinMem.{bin_index}

-- No chunk, one that a client has, one on no list in the middle of a call, one that a call keeps
-- while it makes another, one on the list of a bin, or a block of its own that a client has.
pub data Kind : Type 0 where
  gap taken loose held big : Kind
  binned : ℕ → Kind

unfoldable pub is_live : Kind → Bool
is_live gap = false
is_live taken = true
is_live loose = true
is_live held = true
is_live big = false
is_live (binned i) = true

unfoldable pub in_bin : ℕ → Kind → ℕ
in_bin i gap = 0
in_bin i taken = 0
in_bin i loose = 0
in_bin i held = 0
in_bin i big = 0
in_bin i (binned j) = if i == j then 1 else 0

unfoldable pub is_held : Kind → Bool
is_held gap = false
is_held taken = false
is_held loose = false
is_held held = true
is_held big = false
is_held (binned i) = false

pub is_held_lem : (k : Kind) → is_held k ≡ true → k ≡ held
unfolding is_held
is_held_lem gap e = cc
is_held_lem taken e = cc
is_held_lem loose e = cc
is_held_lem held e = refl
is_held_lem big e = cc
is_held_lem (binned i) e = cc

pub dead_gap : (k : Kind) → is_live k ≡ false → k ≢ big → k ≡ gap
unfolding is_live
dead_gap gap e f = refl
dead_gap taken e f = cc
dead_gap loose e f = cc
dead_gap held e f = cc
dead_gap big e f = absurd (f refl)
dead_gap (binned i) e f = cc

pub record IsBinned (kind : ℕ → Kind) (size : ℕ → ℕ) (used : ℕ → Bool) (bins : ℕ → List ℕ)
    : Type 0 where
  pub taken_used : (a : ℕ) → kind a ≡ taken → used a ≡ true
  pub binned_free : (a i : ℕ) → kind a ≡ binned i → used a ≡ false
  pub times : (a i : ℕ) → times_in a (bins i) ≡ in_bin i (kind a)
  pub index : (a i : ℕ) → kind a ≡ binned i → (i ≡ 0) ⊎ (i ≡ bin_index (size a))

module _ (kind : ℕ → Kind) (size : ℕ → ℕ) (used : ℕ → Bool) (bins : ℕ → List ℕ)
    (v : IsBinned kind size used bins) where
  pub remove-IsBinned :
      (a i : ℕ) → kind a ≡ binned i → IsBinned (put kind a loose) size used (λ i. remove a (bins i))
  unfolding put in_bin
  remove-IsBinned a i e = record {
    taken_used = λ b h. ground (arith, h, v.taken_used b);
    binned_free = λ b j h. ground (arith, h, v.binned_free b j);
    times = λ b j. ground (arith, v.times b j, times_remove a b (bins j));
    index = λ b j h. ground (arith, h, v.index b j);
  }

  pub insert-IsBinned :
      (a i : ℕ)
      → kind a ≡ loose
      → used a ≡ false
      → (i ≡ 0) ⊎ (i ≡ bin_index (size a))
      → IsBinned (put kind a (binned i)) size used (put bins i (bins i ++ (a ∷ [])))
  unfolding put in_bin
  insert-IsBinned a i e f x = record {
    taken_used = λ b h. ground (arith, h, v.taken_used b);
    binned_free = λ b j h. ground (arith, h, f, v.binned_free b j);
    times = λ b j. ground (arith, e, v.times b j, times_snoc a b (bins i));
    index = λ b j h. ground (arith, h, x, v.index b j);
  }

  -- A client gets a chunk.
  pub use-IsBinned :
      (a : ℕ) → kind a ≡ loose → IsBinned (put kind a taken) size (put used a true) bins
  unfolding put in_bin
  use-IsBinned a e = record {
    taken_used = λ b h. ground (arith, h, v.taken_used b);
    binned_free = λ b j h. ground (arith, h, v.binned_free b j);
    times = λ b j. ground (arith, e, v.times b j);
    index = λ b j h. ground (arith, h, v.index b j);
  }

  -- A chunk on no list gets another size, and is in use or not.
  pub resize-IsBinned :
      (a n : ℕ) (u : Bool) → kind a ≡ loose → IsBinned kind (put size a n) (put used a u) bins
  unfolding put in_bin
  resize-IsBinned a n u e = record {
    taken_used = λ b h. ground (arith, e, h, v.taken_used b);
    binned_free = λ b j h. ground (arith, e, h, v.binned_free b j);
    times = v.times;
    index = λ b j h. ground (arith, e, h, v.index b j);
  }

  pub give-IsBinned :
      (a : ℕ) → kind a ≡ loose → used a ≡ true → IsBinned (put kind a taken) size used bins
  unfolding put in_bin
  give-IsBinned a e f = record {
    taken_used = λ b h. ground (arith, h, f, v.taken_used b);
    binned_free = λ b j h. ground (arith, h, v.binned_free b j);
    times = λ b j. ground (arith, e, v.times b j);
    index = λ b j h. ground (arith, h, v.index b j);
  }

  -- A chunk on no list is not in use.
  pub clr-IsBinned : (a : ℕ) → kind a ≡ loose → IsBinned kind size (put used a false) bins
  unfolding put in_bin
  clr-IsBinned a e = record {
    taken_used = λ b h. ground (arith, e, h, v.taken_used b);
    binned_free = λ b j h. ground (arith, e, h, v.binned_free b j);
    times = v.times;
    index = v.index;
  }

  -- A header appears or goes, or a block of its own, on no list.
  pub turn-IsBinned :
      (a n : ℕ) (u : Bool) (w : Kind)
      → (kind a ≡ gap) ⊎ (kind a ≡ big)
      → (w ≡ loose) ⊎ ((w ≡ big) ⊎ (w ≡ gap))
      → IsBinned (put kind a w) (put size a n) (put used a u) bins
  unfolding put in_bin
  turn-IsBinned a n u w e f = record {
    taken_used = λ b h. ground (arith, e, f, h, v.taken_used b);
    binned_free = λ b j h. ground (arith, e, f, h, v.binned_free b j);
    times = λ b j. ground (arith, e, f, v.times b j);
    index = λ b j h. ground (arith, e, f, h, v.index b j);
  }

  -- A chunk on no list stays on none.
  pub hold-IsBinned :
      (a : ℕ) (w : Kind)
      → (kind a ≡ taken) ⊎ ((kind a ≡ loose) ⊎ (kind a ≡ held))
      → (w ≡ loose) ⊎ (w ≡ held)
      → IsBinned (put kind a w) size used bins
  unfolding put in_bin
  hold-IsBinned a w e f = record {
    taken_used = λ b h. ground (arith, e, f, h, v.taken_used b);
    binned_free = λ b j h. ground (arith, e, f, h, v.binned_free b j);
    times = λ b j. ground (arith, e, f, v.times b j);
    index = λ b j h. ground (arith, e, f, h, v.index b j);
  }

  -- A client gives a chunk back, or a header goes.
  pub lose-IsBinned :
      (a : ℕ) (w : Kind)
      → (kind a ≡ taken) ⊎ ((kind a ≡ loose) ⊎ (kind a ≡ big))
      → (w ≡ loose) ⊎ (w ≡ gap)
      → IsBinned (put kind a w) size used bins
  unfolding put in_bin
  lose-IsBinned a w e f = record {
    taken_used = λ b h. ground (arith, e, f, h, v.taken_used b);
    binned_free = λ b j h. ground (arith, e, f, h, v.binned_free b j);
    times = λ b j. ground (arith, e, f, v.times b j);
    index = λ b j h. ground (arith, e, f, h, v.index b j);
  }
