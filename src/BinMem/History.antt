-- ===== src/BinMem/History.antt =====
-- The calls of the clients of ksources/kci_bin_mem.cpp, one after the other.
use nihao_github_io.Base.{
  ℕ, ◌+◌, ◌-◌, ◌%◌, ◌^◌, ◌≤◌, ◌<◌, ◌≡◌, refl, subst, Option, none, some, List, [], if◌then◌else◌,
  arith,
}
use nihao_github_io.Base.Maps.{put}
use nihao_github_io.LinkMem.Times.{times_in}
use nihao_github_io.LinkMem.{remove}
use nihao_github_io.BinMem.{BinMem, is_gmem, init_bin_mem, reset_bin_mem_context}
use nihao_github_io.BinMem.Alloc.{chunk2mem, bin_mem_alloc}
use nihao_github_io.BinMem.Free.{bin_mem_free}
use nihao_github_io.BinMem.Realloc.{resize_round, bin_mem_realloc}
use nihao_github_io.BinMem.Kinds.{Kind, gap, is_live, is_held, in_bin}
use nihao_github_io.BinMem.Homes.{IsGranted}
use nihao_github_io.BinMem.Alloc.{heap_bytes}
use nihao_github_io.BinMem.Blocks.{IsIdle, blocks}
use nihao_github_io.BinMem.Requests.{asked}

-- A client that gets a pointer has what it asked for.
unfoldable pub claim : (ℕ → Option ℕ) → Option ℕ → ℕ → ℕ → Option ℕ
unfolding put
claim has none si = has
claim has (some p) si = put has p (some si)

-- A context, and how much the clients have asked for at the pointers that they have.
pub data Reach (step : ℕ) : BinMem → (ℕ → Option ℕ) → Type 0 where
  start : Reach step (init_bin_mem step) (λ p. none)
  alloc :
      (m : BinMem) (has : ℕ → Option ℕ) (si : ℕ) (parent : ℕ → Option ℕ)
      → Reach step m has
      → 1 ≤ si
      → si ≤ 4294967248
      → ((h : ℕ)
          → parent (asked m si) ≡ some h
          → IsGranted m.given m.heap_stub m.large_stub m.step h (asked m si))
      → Reach step (bin_mem_alloc m si parent).1 (claim has (bin_mem_alloc m si parent).0 si)
  free :
      (m : BinMem) (has : ℕ → Option ℕ) (p n : ℕ)
      → Reach step m has
      → has p ≡ some n
      → Reach step (bin_mem_free m p).mem (put has p none)
  realloc :
      (m : BinMem) (has : ℕ → Option ℕ) (p q n si : ℕ) (parent : ℕ → Option ℕ)
      → Reach step m has
      → has p ≡ some n
      → 1 ≤ si
      → si ≤ 4294967248
      → ((h : ℕ)
          → parent (if is_gmem m (p - 8) then heap_bytes (resize_round si) else asked m si) ≡ some h
          → IsGranted m.given m.heap_stub
              (if is_gmem m (p - 8) then remove (p - 8 - 24) m.large_stub else m.large_stub)
              m.step
              h
              (if is_gmem m (p - 8) then heap_bytes (resize_round si) else asked m si))
      → (bin_mem_realloc m p si parent).result ≡ some q
      → Reach step (bin_mem_realloc m p si parent).mem (put (put has p none) q (some si))
  reset :
      (m : BinMem) (has : ℕ → Option ℕ)
      → Reach step m has
      → Reach step (reset_bin_mem_context m) (λ p. none)

-- Every pointer is that of a block with room for what was asked for.
pub record IsServing (m : BinMem) (has : ℕ → Option ℕ) : Type 0 where
  pub kind : ℕ → Kind
  pub home : ℕ → ℕ
  pub idle : IsIdle m kind home
  pub covers :
      (a si : ℕ)
      → has (chunk2mem a) ≡ some si
      → (n : ℕ) × (blocks m kind a ≡ some n) × (si + 16 ≤ n)
  pub low : (p : ℕ) → p < 8 → has p ≡ none

pub empty-IsIdle :
    (m : BinMem)
    → m.step % 8 ≡ 0
    → 512 ≤ m.step
    → m.step + 24 < 2 ^ 32
    → ((i : ℕ) → m.bins i ≡ [])
    → m.heap_stub ≡ []
    → m.large_stub ≡ []
    → IsIdle m (λ a. gap) (λ a. 0)
unfolding is_live is_held in_bin times_in
empty-IsIdle m al lo hi bs hs ls = record {
  valid = record {
    tiled = record {
      aligned = λ a l. cc;
      min_size = λ a l. cc;
      no_gmem = λ a l. cc;
      next_live = λ a l n. cc;
      next_knows = λ a l n. cc;
      next_size = λ a l n. cc;
      prev_le = λ a l n. cc;
      prev_live = λ a l n. cc;
      prev_knows = λ a l n. cc;
      prev_size = λ a l n. cc;
      apart = λ a b l k lt. cc;
    };
    in_lists = record {
      taken_used = λ a e. cc;
      binned_free = λ a i e. cc;
      times = λ a i. rw (bs i) refl;
      index = λ a i e. cc;
    };
    housed = record {
      listed = λ a l. cc;
      low = λ a l. cc;
      high = λ a l. cc;
      next_home = λ a l n. cc;
      big_listed = λ a e. cc;
      big_low = λ a e. cc;
      heap_once = λ h. rw hs (omega arith);
      large_once = λ h. rw ls (omega arith);
      heaps_apart = λ h x p q lt. absurd (no_member h m.heap_stub hs p);
      large_apart = λ h x p q. absurd (no_member h m.heap_stub hs p);
      larges_apart = λ h x p q lt. absurd (no_member h m.large_stub ls p);
    };
    big_mark = λ a e. cc;
    step_aligned = al;
    step_min = lo;
    step_max = hi;
  };
  settled = λ a e. cc;
  unheld = λ a. refl;
}
  where
    zero_not : ¬ (1 ≤ 0)
    zero_not p = omega arith

    no_member : (h : ℕ) (xs : List ℕ) → xs ≡ [] → ¬ (1 ≤ times_in h xs)
    no_member h xs e p = zero_not (subst (λ xs. 1 ≤ times_in h xs) e p)
