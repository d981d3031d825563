-- ===== src/BinMem/Tests.antt =====
-- A run of a binned context whose step is 65536: a heap at 1000, two blocks in it, and calls for
-- them.
use nihao_github_io.Base.{ℕ, ◌+◌, ◌≤◌, ◌≡◌, refl, Option, none, some, [], ◌∷◌, arith}
use nihao_github_io.Base.Maps.{put}
use nihao_github_io.LinkMem.Times.{times_in}
use nihao_github_io.BinMem.{BinMem, init_bin_mem, is_gmem, clr_bin_mem_context}
use nihao_github_io.BinMem.Alloc.{bin_mem_alloc}
use nihao_github_io.BinMem.Free.{bin_mem_free}
use nihao_github_io.BinMem.Realloc.{bin_mem_realloc}
use nihao_github_io.BinMem.Kinds.{is_held}
use nihao_github_io.BinMem.Homes.{IsGranted}
use nihao_github_io.BinMem.Blocks.{blocks, IsIdle-IsCalm}
use nihao_github_io.BinMem.Serve.{IsAllocated}
use nihao_github_io.BinMem.Requests.{asked, bin_mem_alloc-IsAllocated}
use nihao_github_io.BinMem.Release.{IsFreed}
use nihao_github_io.BinMem.Returned.{bin_mem_free-IsFreed}
use nihao_github_io.BinMem.Resize.{IsResized}
use nihao_github_io.BinMem.Resizing.{bin_mem_realloc-IsResized}
use nihao_github_io.BinMem.History.{Reach, start, alloc, claim, IsServing}
use nihao_github_io.BinMem.Reached.{Reach-IsServing, Reach-apart}

-- A parent that has memory at 1000, and one that has none.
abbrev at_1000 : ℕ → Option ℕ
at_1000 n = some 1000

abbrev refuses : ℕ → Option ℕ
refuses n = none

abbrev empty : BinMem
unfolding init_bin_mem
empty = init_bin_mem 65536

abbrev one : BinMem
unfolding empty bin_mem_alloc
one = (bin_mem_alloc empty 100 at_1000).1

abbrev two : BinMem
unfolding one bin_mem_alloc
two = (bin_mem_alloc one 200 refuses).1

abbrev has_one : ℕ → Option ℕ
unfolding empty bin_mem_alloc claim
has_one = claim (λ p. none) (bin_mem_alloc empty 100 at_1000).0 100

abbrev has_two : ℕ → Option ℕ
unfolding one bin_mem_alloc claim has_one
has_two = claim has_one (bin_mem_alloc one 200 refuses).0 200

first_pointer : has_two 1032 ≡ some 100
unfolding has_two
first_pointer = refl

second_pointer : has_two 1152 ≡ some 200
unfolding has_two
second_pointer = refl

first-IsGranted :
    (h : ℕ)
    → at_1000 (asked empty 100) ≡ some h
    → IsGranted empty.given [] [] 65536 h (asked empty 100)
unfolding times_in
first-IsGranted h e = record {
  from_heaps = λ x p. absurd (omega (arith, p));
  from_larges = λ x p. absurd (omega (arith, p));
}

two-Reach : Reach 65536 two has_two
unfolding two one has_two has_one empty init_bin_mem
two-Reach =
    alloc one has_one 200 refuses
      (alloc empty (λ p. none) 100 at_1000 start (omega arith) (omega arith) first-IsGranted)
      (omega arith) (omega arith) (λ h e. cc)

Reach-IsServing_example : IsServing two has_two
Reach-IsServing_example =
    Reach-IsServing 65536 two has_two refl (omega arith) (omega arith) two-Reach

Reach-apart_example : 1032 + 100 ≤ 1152
Reach-apart_example =
    Reach-apart 65536 two has_two 1032 1152 100 200 refl (omega arith) (omega arith) two-Reach
      first_pointer second_pointer (omega arith)

two-IsServing : IsServing two has_two
two-IsServing = Reach-IsServing 65536 two has_two refl (omega arith) (omega arith) two-Reach

abbrev first_block : (n : ℕ) × (blocks two two-IsServing.kind 1024 ≡ some n) × (100 + 16 ≤ n)
first_block = two-IsServing.covers 1024 100 first_pointer

bin_mem_alloc-IsAllocated_example :
    IsAllocated
      (blocks two two-IsServing.kind)
      (λ b. is_held (two-IsServing.kind b))
      (5000 + 16)
      (refuses (asked two 5000))
      (bin_mem_alloc two 5000 refuses)
bin_mem_alloc-IsAllocated_example =
    bin_mem_alloc-IsAllocated two two-IsServing.kind two-IsServing.home 5000 refuses
      (IsIdle-IsCalm two two-IsServing.kind two-IsServing.home two-IsServing.idle) (omega arith)
      (omega arith) (λ h e. cc)

bin_mem_free-IsFreed_example :
    IsFreed (put (blocks two two-IsServing.kind) 1024 none) (bin_mem_free two 1032)
bin_mem_free-IsFreed_example =
    bin_mem_free-IsFreed two two-IsServing.kind two-IsServing.home 1024 first_block.0
      two-IsServing.idle first_block.1

bin_mem_realloc-IsResized_example :
    IsResized
      (put (blocks two two-IsServing.kind) 1024 none)
      (300 + 16)
      none
      1024
      first_block.0
      300
      (is_gmem two 1024)
      (bin_mem_realloc two 1032 300 refuses)
bin_mem_realloc-IsResized_example =
    bin_mem_realloc-IsResized two two-IsServing.kind two-IsServing.home 1024 first_block.0 300
      refuses two-IsServing.idle first_block.1 (omega arith) (omega arith) (λ h e. cc)

-- The block moves behind the second one, with the 112 bytes that the old one has room for.
moves : (bin_mem_realloc two 1032 300 refuses).result ≡ some 1368
unfolding bin_mem_realloc two
moves = refl

-- The first block is free again, in front of the second, and a request of its size gets it.
used_again : (bin_mem_alloc (bin_mem_free two 1032).mem 100 refuses).0 ≡ some 1032
unfolding bin_mem_free bin_mem_alloc two
used_again = refl

cleared : (clr_bin_mem_context two).returned ≡ 1000 ∷ []
unfolding clr_bin_mem_context two
cleared = refl
