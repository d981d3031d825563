-- ===== src/BinMem/Headers.antt =====
-- Headers of chunks that are written, appear and go, of ksources/kci_bin_mem.cpp.
use nihao_github_io.Base.{ℕ, ◌+◌, ◌%◌, ◌≤◌, ◌≡◌, subst, ◌⊎◌, Bool, true, false, arith}
use nihao_github_io.Base.Maps.{put}
use nihao_github_io.BinMem.Tiles.{IsTiled}

module _ (live : ℕ → Bool) (size prev : ℕ → ℕ) (next_ok prev_ok : ℕ → Bool)
    (t : IsTiled live size prev next_ok prev_ok) where
  -- A header where none is.
  pub write-IsTiled :
      (a n p : ℕ) (x y : Bool)
      → live a ≡ false
      → IsTiled live (put size a n) (put prev a p) (put next_ok a x) (put prev_ok a y)
  unfolding put
  write-IsTiled a n p x y dead = record {
    aligned = λ b h. ground (arith, h, dead, t.aligned b);
    min_size = λ b h. ground (arith, h, dead, t.min_size b);
    no_gmem = λ b h. ground (arith, h, dead, t.no_gmem b);
    next_live = λ b h q. ground (arith, h, q, dead, t.next_live b);
    next_knows = λ b h q. ground (arith, h, q, dead, t.next_knows b, t.next_live b);
    next_size = λ b h q. ground (arith, h, q, dead, t.next_size b, t.next_live b);
    prev_le = λ b h q. ground (arith, h, q, dead, t.prev_le b);
    prev_live = λ b h q. ground (arith, h, q, dead, t.prev_live b);
    prev_knows = λ b h q. ground (arith, h, q, dead, t.prev_knows b, t.prev_live b);
    prev_size = λ b h q. ground (arith, h, q, dead, t.prev_size b, t.prev_live b);
    apart = λ b d h h' lt. ground (arith, h, h', lt, dead, t.apart b d);
  }

  -- A chunk without neighbours, apart from all others.
  pub new-IsTiled :
      (a n : ℕ)
      → n % 8 ≡ 0
      → 24 ≤ n
      → ((b : ℕ) → live b ≡ true → (b + size b ≤ a) ⊎ (a + n ≤ b))
      → IsTiled
          (put live a true)
          (put size a n)
          (put prev a 0)
          (put next_ok a false)
          (put prev_ok a false)
  unfolding put
  new-IsTiled a n al mi far =
      let dead : live a ≡ false = ground (arith, far a, t.min_size a, mi) in
      record {
        aligned = λ b h. ground (arith, h, al, t.aligned b);
        min_size = λ b h. ground (arith, h, mi, t.min_size b);
        no_gmem = λ b h. ground (arith, h, t.no_gmem b);
        next_live = λ b h q. ground (arith, h, q, t.next_live b);
        next_knows = λ b h q. ground (arith, h, q, dead, t.next_knows b, t.next_live b);
        next_size = λ b h q. ground (arith, h, q, dead, t.next_size b, t.next_live b);
        prev_le = λ b h q. ground (arith, h, q, t.prev_le b);
        prev_live = λ b h q. ground (arith, h, q, t.prev_live b);
        prev_knows = λ b h q. ground (arith, h, q, dead, t.prev_knows b, t.prev_live b);
        prev_size = λ b h q. ground (arith, h, q, dead, t.prev_size b, t.prev_live b);
        apart = λ b d h h' lt.
            ground (arith, h, h', lt, t.apart b d, far b, far d, mi, t.min_size b, t.min_size d);
      }

  -- A chunk without neighbours goes.
  pub drop-IsTiled :
      (a : ℕ)
      → live a ≡ true
      → next_ok a ≡ false
      → prev_ok a ≡ false
      → IsTiled (put live a false) size prev next_ok prev_ok
  unfolding put
  drop-IsTiled a l nx px = record {
    aligned = λ b h. ground (arith, h, t.aligned b);
    min_size = λ b h. ground (arith, h, t.min_size b);
    no_gmem = λ b h. ground (arith, h, t.no_gmem b);
    next_live = λ b h q. ground (arith, h, q, px, t.next_live b, t.next_knows b);
    next_knows = λ b h q. ground (arith, h, q, t.next_knows b);
    next_size = λ b h q. ground (arith, h, q, t.next_size b);
    prev_le = λ b h q. ground (arith, h, q, t.prev_le b);
    prev_live = λ b h q. ground (arith, h, q, nx, t.prev_live b, t.prev_knows b);
    prev_knows = λ b h q. ground (arith, h, q, t.prev_knows b);
    prev_size = λ b h q. ground (arith, h, q, t.prev_size b);
    apart = λ b d h h' lt. ground (arith, h, h', lt, t.apart b d);
  }

-- The headers are where they were.
pub same-IsTiled :
    (live live' : ℕ → Bool) (size prev : ℕ → ℕ) (next_ok prev_ok : ℕ → Bool)
    → IsTiled live size prev next_ok prev_ok
    → ((b : ℕ) → live b ≡ live' b)
    → IsTiled live' size prev next_ok prev_ok
same-IsTiled live live' size prev next_ok prev_ok t e =
    subst (λ live. IsTiled live size prev next_ok prev_ok) (λ i b. e b i) t
