-- ===== src/BinMem/Release.antt =====
-- What `bin_mem_free` of ksources/kci_bin_mem.cpp does with the blocks of the clients.
use nihao_github_io.Base.{
  ℕ, ◌+◌, ◌-◌, ◌≡◌, ◌≢◌, refl, subst, ◌⊎◌, inl, inr, Bool, true, false, not, ◌&&◌, Option, none,
  some, arith, if_rule,
}
use nihao_github_io.Base.Maps.{put}
use nihao_github_io.BinMem.{BinMem, is_gmem, remove_from_bin, set_head, merge_chunk}
use nihao_github_io.BinMem.Free.{next_agrees, prev_agrees, Merged, merge_next, merge_prev, Freed}
use nihao_github_io.BinMem.Kinds.{Kind, gap, taken, loose, held, big, binned, is_live, is_held}
use nihao_github_io.BinMem.Valid.{IsBin, remove_from_bin-IsBin, release-IsBin}
use nihao_github_io.BinMem.Cuts.{merge_chunk-IsBin}
use nihao_github_io.BinMem.Blocks.{IsIdle, owned_size, blocks}

-- A call raises no error, and the blocks of the clients are `blocks_left`.
pub record IsFreed (blocks_left : ℕ → Option ℕ) (r : Freed) : Type 0 where
  pub fine : r.raised ≡ false
  pub kind : ℕ → Kind
  pub home : ℕ → ℕ
  pub idle : IsIdle r.mem kind home
  pub rest : (b : ℕ) → blocks r.mem kind b ≡ blocks_left b

-- The chunk that goes back is on no list, as the only one.
pub record IsMerged (blocks_left : ℕ → Option ℕ) (r : Merged) : Type 0 where
  pub kind : ℕ → Kind
  pub home : ℕ → ℕ
  pub valid : IsBin r.mem kind home
  pub is_loose : kind r.chunk ≡ loose
  pub only : (b : ℕ) → kind b ≡ loose → b ≡ r.chunk
  pub unheld : (b : ℕ) → is_held (kind b) ≡ false
  pub rest : (b : ℕ) → blocks r.mem kind b ≡ blocks_left b

free_binned :
    (k : Kind)
    → is_live k ≡ true
    → k ≢ loose
    → k ≢ taken
    → is_held k ≡ false
    → (i : ℕ) × (k ≡ binned i)
unfolding is_live is_held
free_binned gap l f g h = cc
free_binned taken l f g h = absurd (g refl)
free_binned loose l f g h = absurd (f refl)
free_binned held l f g h = cc
free_binned big l f g h = cc
free_binned (binned i) l f g h = (i, refl)

pub owned_kind : (k : Kind) (s g n : ℕ) → owned_size k s g ≡ some n → (k ≡ taken) ⊎ (k ≡ big)
unfolding owned_size
owned_kind gap s g n e = cc
owned_kind taken s g n e = inl refl
owned_kind loose s g n e = cc
owned_kind held s g n e = cc
owned_kind big s g n e = inr refl
owned_kind (binned i) s g n e = cc

module _ (m : BinMem) (kind : ℕ → Kind) (home : ℕ → ℕ) (v : IsBin m kind home) where
  pub next_agrees_lem : (a : ℕ) → is_live (kind a) ≡ true → next_agrees m a ≡ true
  unfolding next_agrees
  next_agrees_lem a l = ground (arith, v.tiled.next_knows a l, v.tiled.next_size a l)

  pub prev_agrees_lem : (a : ℕ) → is_live (kind a) ≡ true → prev_agrees m a ≡ true
  unfolding prev_agrees
  prev_agrees_lem a l =
      ground (arith, v.tiled.prev_knows a l, v.tiled.prev_size a l, v.tiled.prev_le a l)

  pub taken-is_gmem : (a : ℕ) → kind a ≡ taken → is_gmem m a ≡ false
  unfolding is_gmem is_live
  taken-is_gmem a t = ground (arith, t, v.tiled.no_gmem a (rw t refl))

  pub big-is_gmem : (a : ℕ) → kind a ≡ big → is_gmem m a ≡ true
  unfolding is_gmem
  big-is_gmem a b = ground (arith, b, v.big_mark a b)

-- The free chunk behind it joins the chunk.
module _ (m : BinMem) (kind : ℕ → Kind) (home : ℕ → ℕ) (v : IsIdle m kind home) (a : ℕ)
    (e : kind a ≡ taken) where
  join_next :
      m.next_ok a ≡ true
      → m.used (a + m.size a) ≡ false
      → (b : Bool)
      → IsMerged (put (blocks m kind) a none) (record {
        mem = merge_chunk (remove_from_bin m (a + m.size a)) a (a + m.size a);
        chunk = a;
        is_bin0 = b;
      })
  unfolding remove_from_bin merge_chunk set_head blocks owned_size put is_live is_held
  join_next nx free b =
      let n = a + m.size a in
      let l : is_live (kind a) ≡ true = rw e refl in
      let mi = v.valid.tiled.min_size a l in
      let f =
        free_binned (kind n) (v.valid.tiled.next_live a l nx) (v.settled n)
          (λ t. ground (arith, t, free, v.valid.in_lists.taken_used n)) (v.unheld n) in
      let v1 = release-IsBin m kind home v.valid a e in
      let v2 = remove_from_bin-IsBin m (put kind a loose) home v1 n f.0 (ground (arith, f.1, mi)) in
      let v3 =
        merge_chunk-IsBin (remove_from_bin m n) (put (put kind a loose) n loose) home v2 a
          (ground arith) (ground arith) nx in
      record {
        kind = put (put (put kind a loose) n loose) n gap;
        home = home;
        valid = v3;
        is_loose = ground (arith, mi);
        only = λ c q. ground (arith, q, v.settled c);
        unheld = λ c. ground (arith, v.unheld c);
        rest = λ c. ground (arith, f.1, e, mi);
      }

  pub merge_next-IsMerged : IsMerged (put (blocks m kind) a none) (merge_next m a)
  unfolding merge_next blocks owned_size put is_held
  merge_next-IsMerged =
      if_rule (λ r. IsMerged (put (blocks m kind) a none) r)
        (m.next_ok a && not (m.used (a + m.size a))) _ _
        (λ q. join_next (ground (arith, q)) (ground (arith, q)) _)
        (λ q. record {
          kind = put kind a loose;
          home = home;
          valid = release-IsBin m kind home v.valid a e;
          is_loose = ground arith;
          only = λ c q. ground (arith, q, v.settled c);
          unheld = λ c. ground (arith, v.unheld c);
          rest = λ c. ground arith;
        })

-- It joins the free chunk before it.
module _ (left : ℕ → Option ℕ) (r : Merged) (v : IsMerged left r) where
  pub join_prev :
      r.mem.prev_ok r.chunk ≡ true
      → r.mem.used (r.chunk - r.mem.prev_size r.chunk) ≡ false
      → (b : Bool)
      → IsMerged left (record {
        mem =
            merge_chunk
              (remove_from_bin r.mem (r.chunk - r.mem.prev_size r.chunk))
              (r.chunk - r.mem.prev_size r.chunk)
              r.chunk;
        chunk = r.chunk - r.mem.prev_size r.chunk;
        is_bin0 = b;
      })
  unfolding remove_from_bin merge_chunk set_head blocks owned_size put is_live is_held
  join_prev px free b =
      let m = r.mem in
      let a = r.chunk in
      let p = a - m.prev_size a in
      let t = v.valid.tiled in
      let l : is_live (v.kind a) ≡ true = rw v.is_loose refl in
      let lp = t.prev_live a l px in
      let mi = t.min_size p lp in
      let place : p + m.size p ≡ a = ground (arith, t.prev_size a l px, t.prev_le a l px) in
      let f =
        free_binned (v.kind p) lp (λ q. ground (arith, v.only p q, place, mi))
          (λ q. ground (arith, q, free, v.valid.in_lists.taken_used p)) (v.unheld p) in
      let v2 = remove_from_bin-IsBin m v.kind v.home v.valid p f.0 f.1 in
      let v3 =
        merge_chunk-IsBin (remove_from_bin m p) (put v.kind p loose) v.home v2 p (ground arith)
          (ground (arith, v.is_loose, place)) (t.prev_knows a l px) in
      record {
        kind = put (put v.kind p loose) a gap;
        home = v.home;
        valid =
            subst
              (λ c.
                IsBin (merge_chunk (remove_from_bin m p) p c) (put (put v.kind p loose) c gap)
                  v.home)
              place v3;
        is_loose = ground (arith, place, mi);
        only = λ c q. ground (arith, q, v.only c);
        unheld = λ c. ground (arith, v.unheld c);
        rest = λ c. ground (arith, f.1, v.is_loose, mi, place, v.rest c);
      }

  pub merge_prev-IsMerged : IsMerged left (merge_prev r)
  unfolding merge_prev
  merge_prev-IsMerged =
      if_rule (λ r. IsMerged left r)
        (r.mem.prev_ok r.chunk && not (r.mem.used (r.chunk - r.mem.prev_size r.chunk))) _ _
        (λ q. join_prev (ground (arith, q)) (ground (arith, q)) _) (λ q. v)
