-- ===== src/BinMem/Serve.antt =====
-- What `bin_mem_alloc` of ksources/kci_bin_mem.cpp does with the blocks of the clients.
use nihao_github_io.Base.{
  ℕ, ◌+◌, ◌-◌, ◌%◌, ◌≤◌, ◌≡◌, refl, ap, subst, ◌⊎◌, inl, inr, Bool, Option, none, some, List, [],
  ◌∷◌, leb, arith, if_rule,
}
use nihao_github_io.Base.Maps.{put}
use nihao_github_io.LinkMem.Times.{times_in}
use nihao_github_io.BinMem.{
  BinMem, bin_index, insert, insert_into_bin, insert_into_bin0, set_use, set_head, cut_chunk,
  split_chunk, split_chunk0,
}
use nihao_github_io.BinMem.Alloc.{Allocated, chunk2mem, use_chunk, use_chunk0, first_fit}
use nihao_github_io.BinMem.Kinds.{
  Kind, gap, taken, loose, held, big, binned, is_live, is_held, in_bin,
}
use nihao_github_io.BinMem.Valid.{IsBin, set_use-IsBin, insert-IsBin, give-IsBin}
use nihao_github_io.BinMem.Cuts.{inside_gap, cut_chunk-IsBin}
use nihao_github_io.BinMem.Blocks.{IsCalm, owned_size, blocks}

-- A call is given a block that nobody has, of `need` bytes or more, or nothing if the parent grants
-- nothing. The other blocks stay.
pub data IsAllocated (old : ℕ → Option ℕ) (kept : ℕ → Bool) (need : ℕ) (grant : Option ℕ)
    : Allocated → Type 0 where
  failed :
      (m : BinMem) (kind : ℕ → Kind) (home : ℕ → ℕ)
      → grant ≡ none
      → IsCalm m kind home
      → ((b : ℕ) → blocks m kind b ≡ old b)
      → ((b : ℕ) → is_held (kind b) ≡ kept b)
      → IsAllocated old kept need grant (none, m)
  served :
      (m : BinMem) (kind : ℕ → Kind) (home : ℕ → ℕ) (a n : ℕ)
      → IsCalm m kind home
      → old a ≡ none
      → need ≤ n
      → ((b : ℕ) → blocks m kind b ≡ put old a (some n) b)
      → ((b : ℕ) → is_held (kind b) ≡ kept b)
      → IsAllocated old kept need grant (some (chunk2mem a), m)

pub same-IsAllocated :
    (old old' : ℕ → Option ℕ) (kept kept' : ℕ → Bool) (need : ℕ) (grant : Option ℕ) (r : Allocated)
    → IsAllocated old kept need grant r
    → ((b : ℕ) → old b ≡ old' b)
    → ((b : ℕ) → kept b ≡ kept' b)
    → IsAllocated old' kept' need grant r
same-IsAllocated old old' kept kept' need grant r w e f =
    subst (λ old. IsAllocated old kept' need grant r) (λ i b. e b i)
      (subst (λ kept. IsAllocated old kept need grant r) (λ i b. f b i) w)

pub less-IsAllocated :
    (old : ℕ → Option ℕ) (kept : ℕ → Bool) (need less : ℕ) (grant : Option ℕ) (r : Allocated)
    → less ≤ need
    → IsAllocated old kept need grant r
    → IsAllocated old kept less grant r
less-IsAllocated old kept need less grant r le (failed m kind home g v w h) =
    failed m kind home g v w h
less-IsAllocated old kept need less grant r le (served m kind home a n v f en w h) =
    served m kind home a n v f (omega arith) w h

-- The first chunk that fits is on the list and fits.
pub first_fit_lem :
    (size : ℕ → ℕ) (siz a : ℕ) (bs : List ℕ)
    → first_fit size siz bs ≡ some a
    → (1 ≤ times_in a bs) × (siz ≤ size a)
unfolding first_fit times_in
first_fit_lem size siz a [] e = cc
first_fit_lem size siz a (b ∷ bs) e =
    let rest = first_fit_lem size siz a bs in ground (arith, e, rest)

in_bin-binned : (k : Kind) (i : ℕ) → 1 ≤ in_bin i k → k ≡ binned i
unfolding in_bin
in_bin-binned gap i e = absurd (omega arith)
in_bin-binned taken i e = absurd (omega arith)
in_bin-binned loose i e = absurd (omega arith)
in_bin-binned held i e = absurd (omega arith)
in_bin-binned big i e = absurd (omega arith)
in_bin-binned (binned j) i e = ap binned (ground (arith, e))

module _ (m : BinMem) (kind : ℕ → Kind) (home : ℕ → ℕ) (v : IsBin m kind home) where
  pub listed-binned : (a i : ℕ) → 1 ≤ times_in a (m.bins i) → kind a ≡ binned i
  listed-binned a i e = in_bin-binned (kind a) i (ground (arith, e, v.in_lists.times a i))

  -- The chunk that has been taken off its list is the only one on none.
  module _ (a siz : ℕ) (e : kind a ≡ loose) (only : (b : ℕ) → kind b ≡ loose → b ≡ a)
      (al : siz % 8 ≡ 0) (mi : 24 ≤ siz) where
    -- The rest goes to the list `i`.
    cut_insert-IsAllocated :
        (i : ℕ) (grant : Option ℕ)
        → (i ≡ 0) ⊎ (i ≡ bin_index (m.size a - siz))
        → siz + 24 ≤ m.size a
        → IsAllocated
            (blocks m kind)
            (λ b. is_held (kind b))
            siz
            grant
            (some (chunk2mem a), insert (cut_chunk m a siz) i (a + siz))
    unfolding cut_chunk insert set_head put is_live blocks owned_size is_held
    cut_insert-IsAllocated i grant which fits =
        let p = a + siz in
        let hole = inside_gap m kind home v a p (rw e refl) (omega arith) (omega arith) in
        let v1 = cut_chunk-IsBin m kind home v a siz e al mi fits in
        let v2 =
          insert-IsBin (cut_chunk m a siz) (put kind p loose) (put home p (home a)) v1 p i
            (ground arith) (ground (arith, mi)) (ground (arith, which, mi)) in
        let v3 =
          give-IsBin (insert (cut_chunk m a siz) i p) (put (put kind p loose) p (binned i))
            (put home p (home a)) v2 a (ground (arith, e, mi)) (ground arith) in
        served _ _ _ a siz (record { valid = v3; settled = λ b q. ground (arith, q, only b) })
          (ground (arith, e)) (omega arith) (λ b. ground (arith, e, mi, hole))
          (λ b. ground (arith, e, mi, hole))

    pub set_use-IsAllocated :
        (grant : Option ℕ)
        → siz ≤ m.size a
        → IsAllocated
            (blocks m kind)
            (λ b. is_held (kind b))
            siz
            grant
            (some (chunk2mem a), set_use m a)
    unfolding set_use put blocks owned_size is_held
    set_use-IsAllocated grant fits =
        served _ _ _ a (m.size a)
          (record {
            valid = set_use-IsBin m kind home v a e;
            settled = λ b q. ground (arith, q, only b);
          })
          (ground (arith, e)) fits (λ b. ground (arith, e)) (λ b. ground (arith, e))

    pub use_chunk-IsAllocated :
        (grant : Option ℕ)
        → siz ≤ m.size a
        → IsAllocated (blocks m kind) (λ b. is_held (kind b)) siz grant (use_chunk m a siz)
    unfolding use_chunk split_chunk insert_into_bin cut_chunk set_head put
    use_chunk-IsAllocated grant fits =
        if_rule
          (λ m'.
            IsAllocated (blocks m kind) (λ b. is_held (kind b)) siz grant (some (chunk2mem a), m'))
          (leb (siz + 24) (m.size a)) _ _
          (λ le.
            cut_insert-IsAllocated (bin_index ((cut_chunk m a siz).size (a + siz))) grant
              (inr (
                ap bin_index {x = (cut_chunk m a siz).size (a + siz)} {y = m.size a - siz}
                  (ground (arith, mi))))
              (ground (arith, le)))
          (λ le. set_use-IsAllocated grant fits)

    pub use_chunk0-IsAllocated :
        (grant : Option ℕ)
        → siz ≤ m.size a
        → IsAllocated (blocks m kind) (λ b. is_held (kind b)) siz grant (use_chunk0 m a siz)
    unfolding use_chunk0 split_chunk0 insert_into_bin0
    use_chunk0-IsAllocated grant fits =
        if_rule
          (λ m'.
            IsAllocated (blocks m kind) (λ b. is_held (kind b)) siz grant (some (chunk2mem a), m'))
          (leb (siz + 24) (m.size a)) _ _
          (λ le. cut_insert-IsAllocated 0 grant (inl refl) (ground (arith, le)))
          (λ le. set_use-IsAllocated grant fits)
