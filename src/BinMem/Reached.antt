-- ===== src/BinMem/Reached.antt =====
-- What is so in every history of calls of ksources/kci_bin_mem.cpp.
use nihao_github_io.Base.{
  ℕ, ◌+◌, ◌-◌, ◌%◌, ◌^◌, ◌≤◌, ◌<◌, ◌≡◌, ◌≢◌, refl, sym, subst, ◌∙◌, inl, inr, Bool, false, Option,
  none, some, ◌==◌, arith, Bool-cases,
}
use nihao_github_io.Base.Maps.{put}
use nihao_github_io.BinMem.{BinMem, is_gmem, init_bin_mem, reset_bin_mem_context}
use nihao_github_io.BinMem.Alloc.{Allocated, chunk2mem, bin_mem_alloc}
use nihao_github_io.BinMem.Free.{bin_mem_free}
use nihao_github_io.BinMem.Realloc.{Resized, bin_mem_realloc}
use nihao_github_io.BinMem.Resize.{IsResized, lost, resized}
use nihao_github_io.BinMem.Resizing.{bin_mem_realloc-IsResized}
use nihao_github_io.BinMem.Kinds.{gap, is_held}
use nihao_github_io.BinMem.Homes.{IsGranted}
use nihao_github_io.BinMem.Blocks.{IsIdle-IsCalm, blocks, blocks_apart}
use nihao_github_io.BinMem.Serve.{IsAllocated, failed, served}
use nihao_github_io.BinMem.Requests.{asked, bin_mem_alloc-IsAllocated}
use nihao_github_io.BinMem.Returned.{bin_mem_free-IsFreed}
use nihao_github_io.BinMem.History.{
  claim, Reach, start, alloc, free, realloc, reset, IsServing, empty-IsIdle,
}

module _ (old has : ℕ → Option ℕ)
    (covers : (a si : ℕ)
      → has (chunk2mem a) ≡ some si
      → (n : ℕ) × (old a ≡ some n) × (si + 16 ≤ n)) where
  claim_covers :
      (a n si : ℕ)
      → si + 16 ≤ n
      → (b k : ℕ) → put has (chunk2mem a) (some si) (chunk2mem b) ≡ some k
      → (x : ℕ) × (put old a (some n) b ≡ some x) × (k + 16 ≤ x)
  unfolding put
  claim_covers a n si room b k e = elim (Bool-cases (b == a)) [
    | inl q ↦ (n, ground (arith, q), ground (arith, q, e, room))
    | inr q ↦ let c = covers b k (ground (arith, q, e)) in (c.0, ground (arith, q, c.1), c.2)
  ]

  free_covers :
      (a b k : ℕ)
      → put has (chunk2mem a) none (chunk2mem b) ≡ some k
      → (x : ℕ) × (put old a none b ≡ some x) × (k + 16 ≤ x)
  unfolding put
  free_covers a b k e = let c = covers b k (ground (arith, e)) in (c.0, ground (arith, e, c.1), c.2)

-- What is so after each call.
alloc-IsServing :
    (m : BinMem) (has : ℕ → Option ℕ) (si : ℕ) (grant : Option ℕ) (v : IsServing m has)
    (r : Allocated)
    → IsAllocated (blocks m v.kind) (λ b. is_held (v.kind b)) (si + 16) grant r
    → IsServing r.1 (claim has r.0 si)
unfolding claim put
alloc-IsServing m has si grant v r (failed m' kind home g w same kept) = record {
  kind = kind;
  home = home;
  idle = record { valid = w.valid; settled = w.settled; unheld = λ b. kept b ∙ v.idle.unheld b };
  covers = λ a n e. let c = v.covers a n e in (c.0, same a ∙ c.1, c.2);
  low = v.low;
}
alloc-IsServing m has si grant v r (served m' kind home a n w unowned room same kept) = record {
  kind = kind;
  home = home;
  idle = record { valid = w.valid; settled = w.settled; unheld = λ b. kept b ∙ v.idle.unheld b };
  covers = λ b k e.
      let c = claim_covers (blocks m v.kind) has v.covers a n si room b k e in
      (c.0, same b ∙ c.1, c.2);
  low = λ p lt. ground (arith, lt, v.low p lt);
}

free-IsServing :
    (m : BinMem) (has : ℕ → Option ℕ) (v : IsServing m has) (a n : ℕ)
    → has (chunk2mem a) ≡ some n
    → IsServing (bin_mem_free m (chunk2mem a)).mem (put has (chunk2mem a) none)
unfolding put
free-IsServing m has v a n e =
    let c = v.covers a n e in
    let f = bin_mem_free-IsFreed m v.kind v.home a c.0 v.idle c.1 in
    record {
      kind = f.kind;
      home = f.home;
      idle = f.idle;
      covers = λ b k q.
          let d = free_covers (blocks m v.kind) has v.covers a b k q in (d.0, f.rest b ∙ d.1, d.2);
      low = λ p lt. ground (arith, lt, v.low p lt);
    }

resize-IsServing :
    (m : BinMem) (has : ℕ → Option ℕ) (v : IsServing m has) (a k si q : ℕ) (grant : Option ℕ)
    (g : Bool) (r : Resized)
    → IsResized (put (blocks m v.kind) a none) (si + 16) grant a k si g r
    → r.result ≡ some q
    → IsServing r.mem (put (put has (chunk2mem a) none) q (some si))
unfolding put
resize-IsServing m has v a k si q grant g r (lost m' f) e = cc
resize-IsServing m has v a k si q grant g r (resized m' kind home c n moved w un room same copied)
      e =
    let place : chunk2mem c ≡ q = ground (arith, e) in
    subst (λ q. IsServing m' (put (put has (chunk2mem a) none) q (some si))) place
      (record {
        kind = kind;
        home = home;
        idle = w;
        covers = λ b j x.
            let d =
              claim_covers (put (blocks m v.kind) a none) (put has (chunk2mem a) none)
                (free_covers (blocks m v.kind) has v.covers a) c n si room b j x in
            (d.0, same b ∙ d.1, d.2);
        low = λ p lt. ground (arith, lt, v.low p lt);
      })

-- However the clients call `bin_mem_alloc`, `bin_mem_realloc`, `bin_mem_free` and the reset on a
-- new context, with sizes of 1 to 4294967248 bytes, pointers that they have, calls of
-- `bin_mem_realloc` that do not fail and a parent whose grants are apart, each pointer that they
-- have is that of a block of at least 16 bytes more than was asked for, and the chunks tile their
-- heaps with every free one on one list, that of its size or the first. The context's step is a
-- multiple of 8 from 512 on, below 2 ^ 32 - 24.
pub Reach-IsServing :
    (step : ℕ) (m : BinMem) (has : ℕ → Option ℕ)
    → step % 8 ≡ 0
    → 512 ≤ step
    → step + 24 < 2 ^ 32
    → Reach step m has
    → IsServing m has
unfolding init_bin_mem reset_bin_mem_context
Reach-IsServing step m has al lo hi start = record {
  kind = λ a. gap;
  home = λ a. 0;
  idle = empty-IsIdle (init_bin_mem step) al lo hi (λ i. refl) refl refl;
  covers = λ a si e. cc;
  low = λ p lt. refl;
}
Reach-IsServing step m has al lo hi (alloc m' has' si parent h some_bytes few fresh) =
    let v = Reach-IsServing step m' has' al lo hi h in
    alloc-IsServing m' has' si _ v _ (
      bin_mem_alloc-IsAllocated m' v.kind v.home si parent (IsIdle-IsCalm m' v.kind v.home v.idle)
        some_bytes few fresh)
Reach-IsServing step m has al lo hi (free m' has' p n h e) =
    let v = Reach-IsServing step m' has' al lo hi h in
    let place : p - 8 + 8 ≡ p = ground (arith, e, v.low p) in
    subst (λ p. IsServing (bin_mem_free m' p).mem (put has' p none)) place
      (free-IsServing m' has' v (p - 8) n (subst (λ p. has' p ≡ some n) (sym place) e))
Reach-IsServing step m has al lo hi (realloc m' has' p q n si parent h e some_bytes few fresh r) =
    let v = Reach-IsServing step m' has' al lo hi h in
    let place : p - 8 + 8 ≡ p = ground (arith, e, v.low p) in
    let c = v.covers (p - 8) n (subst (λ p. has' p ≡ some n) (sym place) e) in
    subst (λ p. IsServing (bin_mem_realloc m' p si parent).mem (put (put has' p none) q (some si)))
      place
      (resize-IsServing m' has' v (p - 8) c.0 si q _ (is_gmem m' (p - 8)) _
        (bin_mem_realloc-IsResized m' v.kind v.home (p - 8) c.0 si parent v.idle c.1 some_bytes few
          fresh)
        (subst (λ p. (bin_mem_realloc m' p si parent).result ≡ some q) (sym place) r))
Reach-IsServing step m has al lo hi (reset m' has' h) =
    let v = Reach-IsServing step m' has' al lo hi h in
    record {
      kind = λ a. gap;
      home = λ a. 0;
      idle =
          empty-IsIdle (reset_bin_mem_context m') v.idle.valid.step_aligned v.idle.valid.step_min
            v.idle.valid.step_max (λ i. refl) refl refl;
      covers = λ a si e. cc;
      low = λ p lt. refl;
    }

-- However the clients call `bin_mem_alloc`, `bin_mem_realloc`, `bin_mem_free` and the reset, one
-- call after the other on a new context, the bytes that they have asked for at two of the pointers
-- that they have do not overlap. The context's step is a multiple of 8 from 512 on, below 2 ^ 32 -
-- 24, the sizes are 1 to 4294967248, the clients give back and resize only what they have, no call
-- of `bin_mem_realloc` fails, and a grant of the parent is apart from the heaps that it has granted
-- and not got back.
pub Reach-apart :
    (step : ℕ) (m : BinMem) (has : ℕ → Option ℕ) (p q n k : ℕ)
    → step % 8 ≡ 0
    → 512 ≤ step
    → step + 24 < 2 ^ 32
    → Reach step m has
    → has p ≡ some n
    → has q ≡ some k
    → p < q
    → p + n ≤ q
Reach-apart step m has p q n k al lo hi h e f lt =
    let v = Reach-IsServing step m has al lo hi h in
    let back : p - 8 + 8 ≡ p = ground (arith, e, v.low p) in
    let back' : q - 8 + 8 ≡ q = ground (arith, f, v.low q) in
    let c = v.covers (p - 8) n (subst (λ p. has p ≡ some n) (sym back) e) in
    let d = v.covers (q - 8) k (subst (λ q. has q ≡ some k) (sym back') f) in
    let far =
      blocks_apart m v.kind v.home v.idle (p - 8) (q - 8) c.0 d.0 c.1 d.1
        (omega (arith, back, lt)) in
    omega (arith, far, back, c.2)

-- Whenever such calls have been made, a client can give back what it has, and no error is raised.
pub Reach-bin_mem_free :
    (step : ℕ) (m : BinMem) (has : ℕ → Option ℕ) (p n : ℕ)
    → step % 8 ≡ 0
    → 512 ≤ step
    → step + 24 < 2 ^ 32
    → Reach step m has
    → has p ≡ some n
    → (bin_mem_free m p).raised ≡ false
Reach-bin_mem_free step m has p n al lo hi h e =
    let v = Reach-IsServing step m has al lo hi h in
    let back : p - 8 + 8 ≡ p = ground (arith, e, v.low p) in
    let c = v.covers (p - 8) n (subst (λ p. has p ≡ some n) (sym back) e) in
    subst (λ p. (bin_mem_free m p).raised ≡ false) back
      (bin_mem_free-IsFreed m v.kind v.home (p - 8) c.0 v.idle c.1).fine

granted :
    (old : ℕ → Option ℕ) (kept : ℕ → Bool) (need h : ℕ) (r : Allocated)
    → IsAllocated old kept need (some h) r
    → r.0 ≢ none
granted old kept need h r (failed m kind home g v w x) e = cc
granted old kept need h r (served m kind home a n v f le w x) e = cc

-- Whenever such calls have been made, a request is granted if the parent grants what it is asked
-- for.
pub Reach-bin_mem_alloc :
    (step : ℕ) (m : BinMem) (has : ℕ → Option ℕ) (si h : ℕ) (parent : ℕ → Option ℕ)
    → step % 8 ≡ 0
    → 512 ≤ step
    → step + 24 < 2 ^ 32
    → Reach step m has
    → 1 ≤ si
    → si ≤ 4294967248
    → parent (asked m si) ≡ some h
    → IsGranted m.given m.heap_stub m.large_stub m.step h (asked m si)
    → (bin_mem_alloc m si parent).0 ≢ none
Reach-bin_mem_alloc step m has si h parent al lo hi r some_bytes few gets fresh =
    let v = Reach-IsServing step m has al lo hi r in
    granted (blocks m v.kind) (λ b. is_held (v.kind b)) (si + 16) h _
      (subst
        (λ g.
          IsAllocated (blocks m v.kind) (λ b. is_held (v.kind b)) (si + 16) g
            (bin_mem_alloc m si parent))
        gets
        (bin_mem_alloc-IsAllocated m v.kind v.home si parent (IsIdle-IsCalm m v.kind v.home v.idle)
          some_bytes few
          (λ g q.
            subst (λ g. IsGranted m.given m.heap_stub m.large_stub m.step g (asked m si))
              (ground (arith, gets, q)) fresh)))
