-- ===== src/BinMem/Valid.antt =====
-- The whole state of ksources/kci_bin_mem.cpp, and the small steps of its operations.
use nihao_github_io.Base.{
  ℕ, ◌+◌, ◌%◌, ◌^◌, ◌≤◌, ◌<◌, ◌≡◌, refl, sym, ◌∙◌, ◌⊎◌, inl, Bool, true, false, List, arith,
}
use nihao_github_io.Base.Maps.{put}
use nihao_github_io.BinMem.{BinMem, bin_index, insert, remove_from_bin, set_use, clr_use}
use nihao_github_io.BinMem.Tiles.{IsTiled}
use nihao_github_io.BinMem.Headers.{same-IsTiled}
use nihao_github_io.BinMem.Kinds.{
  Kind, taken, loose, held, big, binned, is_live, IsBinned, remove-IsBinned, insert-IsBinned,
  use-IsBinned, give-IsBinned, clr-IsBinned, hold-IsBinned,
}
use nihao_github_io.BinMem.Homes.{IsHoused, kind-IsHoused}

-- `kind` and `home` say what the addresses are; the context itself does not keep them.
pub record IsBin (m : BinMem) (kind : ℕ → Kind) (home : ℕ → ℕ) : Type 0 where
  pub tiled : IsTiled (λ a. is_live (kind a)) m.size m.prev_size m.next_ok m.prev_ok
  pub in_lists : IsBinned kind m.size m.used m.bins
  pub housed : IsHoused kind home m.size m.given m.next_ok m.heap_stub m.large_stub m.step
  pub big_mark : (a : ℕ) → kind a ≡ big → m.prev_size a % 2 ≡ 1
  pub step_aligned : m.step % 8 ≡ 0
  pub step_min : 512 ≤ m.step
  pub step_max : m.step + 24 < 2 ^ 32

pub set_live :
    (kind : ℕ → Kind) (a : ℕ) (w : Kind) (x : Bool)
    → is_live w ≡ x
    → (b : ℕ) → put (λ c. is_live (kind c)) a x b ≡ is_live (put kind a w b)
unfolding put
set_live kind a w x e b = ground (arith, e)

pub keep_live :
    (kind : ℕ → Kind) (a : ℕ) (w : Kind)
    → is_live w ≡ is_live (kind a)
    → (b : ℕ) → is_live (kind b) ≡ is_live (put kind a w b)
unfolding put
keep_live kind a w e b = ground (arith, e)

module _ (m : BinMem) (kind : ℕ → Kind) (home : ℕ → ℕ) (v : IsBin m kind home) where
  pub keep-IsTiled :
      (a : ℕ) (w : Kind)
      → is_live w ≡ is_live (kind a)
      → IsTiled (λ b. is_live (put kind a w b)) m.size m.prev_size m.next_ok m.prev_ok
  keep-IsTiled a w e =
      same-IsTiled (λ b. is_live (kind b)) (λ b. is_live (put kind a w b)) m.size m.prev_size
        m.next_ok m.prev_ok v.tiled (keep_live kind a w e)

  -- A chunk gets another kind, and the flags of use and the lists change.
  relabel-IsBin :
      (a : ℕ) (w : Kind) (used : ℕ → Bool) (bins : ℕ → List ℕ)
      → is_live (kind a) ≡ true
      → is_live w ≡ true
      → IsBinned (put kind a w) m.size used bins
      → IsBin (record m { used = used; bins = bins }) (put kind a w) home
  unfolding put is_live
  relabel-IsBin a w used bins l k b = record {
    tiled = keep-IsTiled a w (k ∙ sym l);
    in_lists = b;
    housed =
        kind-IsHoused kind home m.size m.prev_size m.given m.next_ok m.prev_ok m.heap_stub
          m.large_stub m.step v.tiled v.housed a w l k;
    big_mark = λ b h. ground (arith, k, h, v.big_mark b);
    step_aligned = v.step_aligned;
    step_min = v.step_min;
    step_max = v.step_max;
  }

  loose_live : (a : ℕ) → kind a ≡ loose → is_live (kind a) ≡ true
  unfolding is_live
  loose_live a e = rw e refl

  -- A chunk is taken off its list.
  pub remove_from_bin-IsBin :
      (a i : ℕ) → kind a ≡ binned i → IsBin (remove_from_bin m a) (put kind a loose) home
  unfolding remove_from_bin is_live
  remove_from_bin-IsBin a i e =
      relabel-IsBin a loose _ _ (rw e refl) refl
        (remove-IsBinned kind m.size m.used m.bins v.in_lists a i e)

  pub set_use-IsBin : (a : ℕ) → kind a ≡ loose → IsBin (set_use m a) (put kind a taken) home
  unfolding set_use is_live
  set_use-IsBin a e =
      relabel-IsBin a taken _ _ (loose_live a e) refl
        (use-IsBinned kind m.size m.used m.bins v.in_lists a e)

  pub insert-IsBin :
      (a i : ℕ)
      → kind a ≡ loose
      → m.used a ≡ false
      → (i ≡ 0) ⊎ (i ≡ bin_index (m.size a))
      → IsBin (insert m i a) (put kind a (binned i)) home
  unfolding insert is_live
  insert-IsBin a i e f x =
      relabel-IsBin a (binned i) _ _ (loose_live a e) refl
        (insert-IsBinned kind m.size m.used m.bins v.in_lists a i e f x)

  -- A chunk on no list stays on none.
  pub hold-IsBin :
      (a : ℕ) (w : Kind)
      → (kind a ≡ taken) ⊎ ((kind a ≡ loose) ⊎ (kind a ≡ held))
      → (w ≡ loose) ⊎ (w ≡ held)
      → IsBin m (put kind a w) home
  unfolding is_live
  hold-IsBin a w e f =
      relabel-IsBin a w _ _ (ground (arith, e)) (ground (arith, f))
        (hold-IsBinned kind m.size m.used m.bins v.in_lists a w e f)

  -- A client gives a chunk back.
  pub release-IsBin : (a : ℕ) → kind a ≡ taken → IsBin m (put kind a loose) home
  release-IsBin a e = hold-IsBin a loose (inl e) (inl refl)

  pub clr_use-IsBin : (a : ℕ) → kind a ≡ loose → IsBin (clr_use m a) kind home
  unfolding clr_use
  clr_use-IsBin a e = record {
    tiled = v.tiled;
    in_lists = clr-IsBinned kind m.size m.used m.bins v.in_lists a e;
    housed = v.housed;
    big_mark = v.big_mark;
    step_aligned = v.step_aligned;
    step_min = v.step_min;
    step_max = v.step_max;
  }

  pub give-IsBin : (a : ℕ) → kind a ≡ loose → m.used a ≡ true → IsBin m (put kind a taken) home
  unfolding is_live
  give-IsBin a e f =
      relabel-IsBin a taken _ _ (loose_live a e) refl
        (give-IsBinned kind m.size m.used m.bins v.in_lists a e f)
