-- ===== src/BinMem/Tiles.antt =====
-- The chunks of ksources/kci_bin_mem.cpp lie side by side and know their neighbours.
use nihao_github_io.Base.{ℕ, ◌+◌, ◌-◌, ◌%◌, ◌≤◌, ◌<◌, ◌≡◌, Bool, true, false, if◌then◌else◌, arith}
use nihao_github_io.Base.Maps.{put}

-- `live` says where a header is.
pub record IsTiled (live : ℕ → Bool) (size prev : ℕ → ℕ) (next_ok prev_ok : ℕ → Bool) : Type 0 where
  pub aligned : (a : ℕ) → live a ≡ true → size a % 8 ≡ 0
  pub min_size : (a : ℕ) → live a ≡ true → 24 ≤ size a
  pub no_gmem : (a : ℕ) → live a ≡ true → prev a % 2 ≡ 0
  pub next_live : (a : ℕ) → live a ≡ true → next_ok a ≡ true → live (a + size a) ≡ true
  pub next_knows : (a : ℕ) → live a ≡ true → next_ok a ≡ true → prev_ok (a + size a) ≡ true
  pub next_size : (a : ℕ) → live a ≡ true → next_ok a ≡ true → prev (a + size a) ≡ size a
  pub prev_le : (a : ℕ) → live a ≡ true → prev_ok a ≡ true → prev a ≤ a
  pub prev_live : (a : ℕ) → live a ≡ true → prev_ok a ≡ true → live (a - prev a) ≡ true
  pub prev_knows : (a : ℕ) → live a ≡ true → prev_ok a ≡ true → next_ok (a - prev a) ≡ true
  pub prev_size : (a : ℕ) → live a ≡ true → prev_ok a ≡ true → size (a - prev a) ≡ prev a
  pub apart : (a b : ℕ) → live a ≡ true → live b ≡ true → a < b → a + size a ≤ b

-- `SetFoot`
abbrev pub foot : Bool → (ℕ → ℕ) → ℕ → ℕ → ℕ → ℕ
foot b prev n siz = if b then put prev n siz else prev

module _ (live : ℕ → Bool) (size prev : ℕ → ℕ) (next_ok prev_ok : ℕ → Bool)
    (t : IsTiled live size prev next_ok prev_ok) where
  -- A chunk is cut in two.
  pub cut-IsTiled :
      (a siz : ℕ)
      → live a ≡ true
      → siz % 8 ≡ 0
      → 24 ≤ siz
      → siz + 24 ≤ size a
      → IsTiled
          (put live (a + siz) true)
          (put (put size (a + siz) (size a - siz)) a siz)
          (foot (next_ok a) (put prev (a + siz) siz) (a + size a) (size a - siz))
          (put (put next_ok (a + siz) (next_ok a)) a true)
          (put (put prev_ok (a + siz) true) a (prev_ok a))
  unfolding put
  cut-IsTiled a siz l al mi fits = record {
    aligned = λ b h. ground (arith, h, t.aligned b, t.aligned a l);
    min_size = λ b h. ground (arith, h, t.min_size b);
    no_gmem = λ b h. ground (arith, h, t.no_gmem b, t.aligned a l);
    next_live = λ b h n. ground (arith, h, n, t.next_live b, t.next_live a l);
    next_knows = λ b h n.
        ground
          (arith, h, n, t.next_knows b, t.next_knows a l, t.next_live b, t.apart a (b + size b) l);
    next_size = λ b h n. ground (
      arith,
      h,
      n,
      t.next_size b,
      t.next_live b,
      t.apart a (b + size b) l,
      t.apart a b l,
      t.apart b a,
      t.min_size b,
      t.min_size a l,
    );
    prev_le = λ b h n. ground (arith, h, n, t.prev_le b, t.next_live a l);
    prev_live = λ b h n. ground (arith, h, n, t.prev_live b, t.next_live a l);
    prev_knows = λ b h n. ground (
      arith,
      h,
      n,
      t.prev_le b,
      t.prev_live b,
      t.prev_knows b,
      t.prev_size b,
      t.next_live a l,
      t.next_size a l,
      t.apart a b l,
      t.apart b a,
      t.apart (b - prev b) a,
      t.apart a (b - prev b) l,
      t.min_size (b - prev b),
      t.min_size b,
    );
    prev_size = λ b h n. ground (
      arith,
      h,
      n,
      t.prev_le b,
      t.prev_live b,
      t.prev_knows b,
      t.prev_size b,
      t.next_live a l,
      t.next_size a l,
      t.apart a b l,
      t.apart b a,
      t.apart (b - prev b) a,
      t.apart a (b - prev b) l,
      t.min_size (b - prev b),
      t.min_size b,
    );
    apart = λ b d h h' lt.
        ground (arith, h, h', lt, t.apart b d, t.apart a d l, t.apart b a, t.apart a b l);
  }

  -- Two neighbours become one chunk.
  pub merge-IsTiled :
      (a : ℕ)
      → live a ≡ true
      → next_ok a ≡ true
      → let b = a + size a in
        IsTiled
          (put live b false)
          (put size a (size a + size b))
          (foot (next_ok b) prev (a + (size a + size b)) (size a + size b))
          (put next_ok a (next_ok b))
          (put prev_ok a (prev_ok a))
  unfolding put
  merge-IsTiled a l nx =
      let lb = t.next_live a l nx in
      let two : size (a + size a) % 8 ≡ 0 = t.aligned (a + size a) lb in
      record {
        aligned = λ b h. ground (arith, h, t.aligned b, t.aligned a l, two);
        min_size = λ b h. ground (arith, h, t.min_size b, t.min_size a l);
        no_gmem = λ b h. ground (arith, h, t.no_gmem b, t.aligned a l, two);
        next_live = λ b h n. ground (
          arith,
          h,
          n,
          t.next_live b,
          t.next_live (a + size a) lb,
          t.apart b a,
          t.apart a b l,
          t.min_size b,
          t.min_size a l,
          t.apart b (a + size a),
          t.min_size (a + size a) lb,
        );
        next_knows = λ b h n. ground (
          arith,
          h,
          n,
          t.next_knows b,
          t.next_knows (a + size a) lb,
          t.apart b a,
          t.apart a b l,
          t.min_size b,
        );
        next_size = λ b h n. ground (
          arith,
          h,
          n,
          t.next_size b,
          t.next_live b,
          t.next_size (a + size a) lb,
          t.next_live (a + size a) lb,
          t.apart a b l,
          t.apart b a,
          t.apart b (a + size a),
          t.apart (a + size a) b lb,
          t.min_size b,
          t.min_size a l,
          t.min_size (a + size a) lb,
        );
        prev_le = λ b h n. ground (arith, h, n, t.prev_le b);
        prev_live = λ b h n. ground (
          arith,
          h,
          n,
          t.prev_le b,
          t.prev_live b,
          t.prev_knows b,
          t.prev_size b,
          t.next_live (a + size a) lb,
          t.next_size (a + size a) lb,
          t.apart a b l,
          t.apart b a,
          t.apart (b - prev b) a,
          t.apart a (b - prev b) l,
          t.apart (a + size a) b lb,
          t.apart (a + size a) (b - prev b) lb,
          t.apart (b - prev b) (a + size a),
          t.min_size (b - prev b),
          t.min_size b,
          t.min_size a l,
          t.min_size (a + size a) lb,
        );
        prev_knows = λ b h n. ground (
          arith,
          h,
          n,
          t.prev_le b,
          t.prev_live b,
          t.prev_knows b,
          t.prev_size b,
          t.next_live (a + size a) lb,
          t.next_size (a + size a) lb,
          t.apart a b l,
          t.apart b a,
          t.apart (b - prev b) a,
          t.apart a (b - prev b) l,
          t.apart (a + size a) b lb,
          t.apart (a + size a) (b - prev b) lb,
          t.apart (b - prev b) (a + size a),
          t.min_size (b - prev b),
          t.min_size b,
          t.min_size a l,
          t.min_size (a + size a) lb,
        );
        prev_size = λ b h n. ground (
          arith,
          h,
          n,
          t.prev_le b,
          t.prev_live b,
          t.prev_knows b,
          t.prev_size b,
          t.next_live (a + size a) lb,
          t.next_size (a + size a) lb,
          t.apart a b l,
          t.apart b a,
          t.apart (b - prev b) a,
          t.apart a (b - prev b) l,
          t.apart (a + size a) b lb,
          t.apart (a + size a) (b - prev b) lb,
          t.apart (b - prev b) (a + size a),
          t.min_size (b - prev b),
          t.min_size b,
          t.min_size a l,
          t.min_size (a + size a) lb,
        );
        apart = λ b d h h' lt. ground (
          arith,
          h,
          h',
          lt,
          t.apart b d,
          t.apart a d l,
          t.apart (a + size a) d lb,
          t.min_size (a + size a) lb,
        );
      }
