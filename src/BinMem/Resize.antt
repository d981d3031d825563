-- ===== src/BinMem/Resize.antt =====
-- What `bin_mem_realloc` of ksources/kci_bin_mem.cpp does with the blocks of the clients.
use nihao_github_io.Base.{
  ℕ, ◌-◌, ◌≤◌, ◌≡◌, refl, sym, subst, ◌∙◌, ◌⊎◌, inl, inr, Bool, true, false, not, ◌&&◌, Option,
  none, some, ltb, if◌then◌else◌, arith, if_rule,
}
use nihao_github_io.Base.Maps.{put}
use nihao_github_io.BinMem.{BinMem, bin_index, insert, insert_into_bin, insert_into_bin0, clr_use}
use nihao_github_io.BinMem.Alloc.{Allocated, chunk2mem}
use nihao_github_io.BinMem.Free.{Merged}
use nihao_github_io.BinMem.Realloc.{Move, Resized, is_empty, give_back, move_block}
use nihao_github_io.BinMem.Kinds.{Kind, loose, held, binned, is_held, is_held_lem}
use nihao_github_io.BinMem.Valid.{insert-IsBin, hold-IsBin, clr_use-IsBin}
use nihao_github_io.BinMem.Blocks.{IsIdle, IsCalm, owned_size, blocks}
use nihao_github_io.BinMem.Serve.{IsAllocated, failed, served}
use nihao_github_io.BinMem.Release.{IsMerged}

-- The bytes of the old block are where they were, or the parent has copied them with their heap, or
-- as many of them are moved as both blocks have room for.
pub record IsCopied (a q k si : ℕ) (by_parent : Bool) (moved : Option Move) : Type 0 where
  pub copied :
      (q ≡ a)
      ⊎ ((by_parent ≡ true)
          ⊎ (moved
              ≡ some (record {
                target = chunk2mem q;
                origin = chunk2mem a;
                count = if ltb (k - 8) si then k - 8 else si;
              })))

-- A call gives a block of `need` bytes or more for the one of `k` bytes at `a`, which is not among
-- the blocks `others`; or nothing if the parent grants nothing.
pub data IsResized (others : ℕ → Option ℕ) (need : ℕ) (grant : Option ℕ) (a k si : ℕ)
    (by_parent : Bool) : Resized → Type 0 where
  lost :
      (m : BinMem)
      → grant ≡ none
      → IsResized others need grant a k si by_parent
          (record { result = none; mem = m; moved = none })
  resized :
      (m : BinMem) (kind : ℕ → Kind) (home : ℕ → ℕ) (q n : ℕ) (moved : Option Move)
      → IsIdle m kind home
      → others q ≡ none
      → need ≤ n
      → ((b : ℕ) → blocks m kind b ≡ put others q (some n) b)
      → IsCopied a q k si by_parent moved
      → IsResized others need grant a k si by_parent
          (record { result = some (chunk2mem q); mem = m; moved = moved })

module _ (others : ℕ → Option ℕ) (need : ℕ) (grant : Option ℕ) (a k si : ℕ) (by_parent : Bool) where
  -- A block at `p` that is taken.
  pub take_place :
      (kept : ℕ → Bool) (r : Allocated) (p : ℕ) (moved : Option Move)
      → IsAllocated others kept need grant r
      → r.0 ≡ some (chunk2mem p)
      → ((b : ℕ) → kept b ≡ false)
      → IsCopied a p k si by_parent moved
      → IsResized others need grant a k si by_parent
          (record { result = some (chunk2mem p); mem = r.1; moved = moved })
  take_place kept r p moved (failed m kind home g v w h) e none_kept c = cc
  take_place kept r p moved (served m kind home q n v un le w h) e none_kept c =
      let same : q ≡ p = ground (arith, e) in
      resized m kind home p n moved
        (record { valid = v.valid; settled = v.settled; unheld = λ b. h b ∙ none_kept b })
        (subst (λ q. others q ≡ none) same un) le
        (λ b. subst (λ q. blocks m kind b ≡ put others q (some n) b) same (w b)) c

  -- The old chunk has been kept on no list, and goes on one.
  module _ (r : Merged) (v : IsMerged others r) where
    pub kept_kind : ℕ → Kind
    kept_kind = put v.kind r.chunk held

    pub kept-IsCalm : IsCalm r.mem kept_kind v.home
    unfolding kept_kind put
    kept-IsCalm = record {
      valid = hold-IsBin r.mem v.kind v.home v.valid r.chunk held (inr (inl v.is_loose)) (inr refl);
      settled = λ b q. ground (arith, q, v.only b);
    }

    kept_blocks : (b : ℕ) → blocks r.mem kept_kind b ≡ others b
    unfolding kept_kind put blocks owned_size
    kept_blocks b = ground (arith, v.is_loose, v.rest b)

    back_on_list :
        (m : BinMem) (kind : ℕ → Kind) (home : ℕ → ℕ) (q n i : ℕ) (moved : Option Move)
        → IsCalm m kind home
        → others q ≡ none
        → need ≤ n
        → ((b : ℕ) → blocks m kind b ≡ put (blocks r.mem kept_kind) q (some n) b)
        → ((b : ℕ) → is_held (kind b) ≡ is_held (kept_kind b))
        → (i ≡ 0) ⊎ (i ≡ bin_index (m.size r.chunk))
        → IsCopied a q k si by_parent moved
        → IsResized others need grant a k si by_parent (record {
          result = some (chunk2mem q);
          mem = insert (clr_use m r.chunk) i r.chunk;
          moved = moved;
        })
    unfolding insert clr_use blocks owned_size is_held kept_kind put
    back_on_list m kind home q n i moved u un le x h which c =
        let here : kind r.chunk ≡ held = is_held_lem (kind r.chunk) (ground (arith, h r.chunk)) in
        let v1 = hold-IsBin m kind home u.valid r.chunk loose (inr (inr here)) (inl refl) in
        let v2 = clr_use-IsBin m (put kind r.chunk loose) home v1 r.chunk (ground arith) in
        resized (insert (clr_use m r.chunk) i r.chunk)
          (put (put kind r.chunk loose) r.chunk (binned i)) home q n moved
          (record {
            valid =
                insert-IsBin (clr_use m r.chunk) (put kind r.chunk loose) home v2 r.chunk i
                  (ground arith) (ground arith) which;
            settled = λ b e. ground (arith, e, u.settled b);
            unheld = λ b. ground (arith, h b, v.unheld b);
          })
          un le (λ b. ground (arith, x b, here, v.is_loose, v.rest b)) c

    pub move_block-IsResized :
        (w : Allocated) (p count : ℕ)
        → IsAllocated (blocks r.mem kept_kind) (λ b. is_held (kept_kind b)) need grant w
        → ((q : ℕ)
            → IsCopied a q k si by_parent
                (some (record { target = chunk2mem q; origin = p; count = count })))
        → IsResized others need grant a k si by_parent (move_block w r.chunk r.is_bin0 p count)
    unfolding move_block give_back insert_into_bin insert_into_bin0 clr_use
    move_block-IsResized w p count (failed m kind home g u x h) c = lost m g
    move_block-IsResized w p count (served m kind home q n u un le x h) c =
        if_rule
          (λ m'. IsResized others need grant a k si by_parent (record {
            result = some (chunk2mem q);
            mem = m';
            moved = some (record { target = chunk2mem q; origin = p; count = count });
          }))
          (r.is_bin0 && not (is_empty (m.bins 0))) _ _
          (λ e.
            back_on_list m kind home q n 0 _ u (sym (kept_blocks q) ∙ un) le x h (inl refl) (c q))
          (λ e.
            back_on_list m kind home q n (bin_index (m.size r.chunk)) _ u (sym (kept_blocks q) ∙ un)
              le x h (inr refl) (c q))
