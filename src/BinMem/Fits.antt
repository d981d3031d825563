-- ===== src/BinMem/Fits.antt =====
-- The branches of `bin_mem_realloc` of ksources/kci_bin_mem.cpp.
use nihao_github_io.Base.{
  ℕ, ◌+◌, ◌-◌, ◌%◌, ◌^◌, ◌≤◌, ◌<◌, ◌≡◌, refl, sym, ◌∙◌, subst, inl, inr, Bool, true, false, not,
  ◌&&◌, Option, none, some, ltb, leb, if◌then◌else◌, arith, if_rule,
}
use nihao_github_io.BinMem.Resize.{move_block-IsResized, kept_kind, kept-IsCalm}
use nihao_github_io.Base.Maps.{put}
use nihao_github_io.LinkMem.{remove}
use nihao_github_io.BinMem.{BinMem, remove_from_bin, set_head, merge_chunk, free_large}
use nihao_github_io.BinMem.Alloc.{chunk2mem, round_size, use_chunk, use_chunk0}
use nihao_github_io.BinMem.Free.{Merged}
use nihao_github_io.BinMem.Realloc.{
  Move, resize_round, resize_large, merge_before, fit_or_move, resize_chunk,
}
use nihao_github_io.BinMem.Kinds.{Kind, gap, taken, loose, big, is_held}
use nihao_github_io.BinMem.Homes.{IsGranted, heap_bytes-IsFresh}
use nihao_github_io.BinMem.Alloc.{heap_bytes, bin_mem_alloc}
use nihao_github_io.BinMem.Grants.{fresh_gap}
use nihao_github_io.BinMem.Valid.{release-IsBin}
use nihao_github_io.BinMem.HeapSteps.{free_large-IsBin, put_large-IsBin}
use nihao_github_io.BinMem.Blocks.{IsIdle, owned_size, blocks}
use nihao_github_io.BinMem.Serve.{
  IsAllocated, same-IsAllocated, less-IsAllocated, use_chunk-IsAllocated, use_chunk0-IsAllocated,
}
use nihao_github_io.BinMem.Requests.{
  asked, round_size_mod, round_size_room, round_size_max, bin_mem_alloc-IsAllocated,
}
use nihao_github_io.BinMem.Release.{IsMerged, join_prev}
use nihao_github_io.BinMem.Resize.{IsCopied, IsResized, lost, resized, take_place}

resize_round_lem : (si : ℕ) → resize_round si ≡ round_size si
unfolding resize_round round_size
resize_round_lem si = ground arith

module _ (si : ℕ) (some_bytes : 1 ≤ si) (few : si ≤ 4294967248) (grant : Option ℕ) where
  round_room : si + 16 ≤ resize_round si
  round_room = subst (λ n. si + 16 ≤ n) (sym (resize_round_lem si)) (round_size_room si few)

  round_max : resize_round si + 24 < 2 ^ 32
  round_max = subst (λ n. n + 24 < 2 ^ 32) (sym (resize_round_lem si)) (round_size_max si few)

  round_mod : resize_round si % 8 ≡ 0
  round_mod = subst (λ n. n % 8 ≡ 0) (sym (resize_round_lem si)) (round_size_mod si)

  round_min : 24 ≤ resize_round si
  round_min = omega (arith, round_room, round_mod, some_bytes)

  module _ (others : ℕ → Option ℕ) (a k : ℕ) (by_parent : Bool) (r : Merged)
      (v : IsMerged others r) where
    -- The chunk is large enough.
    fit-IsResized :
        (moved : Option Move)
        → resize_round si ≤ r.mem.size r.chunk
        → IsCopied a r.chunk k si by_parent moved
        → IsResized others (si + 16) grant a k si by_parent (record {
          result = some (chunk2mem r.chunk);
          mem = (use_chunk r.mem r.chunk (resize_round si)).1;
          moved = moved;
        })
    unfolding use_chunk
    fit-IsResized moved fits c =
        let w =
          use_chunk-IsAllocated r.mem v.kind v.home v.valid r.chunk (resize_round si) v.is_loose
            v.only round_mod round_min grant fits in
        take_place others (si + 16) grant a k si by_parent _ _ r.chunk moved
          (less-IsAllocated _ _ _ _ _ _ round_room
            (same-IsAllocated _ _ _ _ _ _ _ w v.rest (λ b. refl)))
          refl v.unheld c

    fit0-IsResized :
        (moved : Option Move)
        → resize_round si ≤ r.mem.size r.chunk
        → IsCopied a r.chunk k si by_parent moved
        → IsResized others (si + 16) grant a k si by_parent (record {
          result = some (chunk2mem r.chunk);
          mem = (use_chunk0 r.mem r.chunk (resize_round si)).1;
          moved = moved;
        })
    unfolding use_chunk0
    fit0-IsResized moved fits c =
        let w =
          use_chunk0-IsAllocated r.mem v.kind v.home v.valid r.chunk (resize_round si) v.is_loose
            v.only round_mod round_min grant fits in
        take_place others (si + 16) grant a k si by_parent _ _ r.chunk moved
          (less-IsAllocated _ _ _ _ _ _ round_room
            (same-IsAllocated _ _ _ _ _ _ _ w v.rest (λ b. refl)))
          refl v.unheld c

    fit_or_move-IsResized :
        (parent : ℕ → Option ℕ)
        → parent (asked r.mem si) ≡ grant
        → ((h : ℕ)
            → grant ≡ some h
            → IsGranted r.mem.given r.mem.heap_stub r.mem.large_stub r.mem.step h (asked r.mem si))
        → IsResized others
            (si + 16)
            grant
            a
            k
            si
            by_parent
            (fit_or_move r (chunk2mem a) (resize_round si) si (k - 8) parent)
    unfolding fit_or_move
    fit_or_move-IsResized parent same fresh =
        if_rule (λ r. IsResized others (si + 16) grant a k si by_parent r)
          (leb (resize_round si) (r.mem.size r.chunk)) _ _
          (λ le.
            let fits : resize_round si ≤ r.mem.size r.chunk = ground (arith, le) in
            let c : IsCopied a r.chunk k si by_parent (
                some (record {
                  target = chunk2mem r.chunk;
                  origin = chunk2mem a;
                  count = if ltb (k - 8) si then k - 8 else si;
                })) =
              record { copied = inr (inr refl) } in
            if_rule
              (λ m. IsResized others (si + 16) grant a k si by_parent (record {
                result = some (chunk2mem r.chunk);
                mem = m;
                moved = some (record {
                  target = chunk2mem r.chunk;
                  origin = chunk2mem a;
                  count = if ltb (k - 8) si then k - 8 else si;
                });
              }))
              r.is_bin0 _ _ (λ b. fit0-IsResized _ fits c) (λ b. fit-IsResized _ fits c))
          (λ small.
            move_block-IsResized others (si + 16) grant a k si by_parent r v _ (chunk2mem a) _
              (subst
                (λ g.
                  IsAllocated (blocks r.mem (kept_kind others (si + 16) grant a k si by_parent r v))
                    (λ b. is_held (kept_kind others (si + 16) grant a k si by_parent r v b))
                    (si + 16) g (bin_mem_alloc r.mem si parent))
                same
                (bin_mem_alloc-IsAllocated r.mem
                  (kept_kind others (si + 16) grant a k si by_parent r v) v.home si parent
                  (kept-IsCalm others (si + 16) grant a k si by_parent r v) some_bytes few
                  (λ h e. fresh h (sym same ∙ e))))
              (λ q. record { copied = inr (inr refl) }))

  module _ (m : BinMem) (kind : ℕ → Kind) (home : ℕ → ℕ) (v : IsIdle m kind home) (a : ℕ) where
    released :
        kind a ≡ taken
        → IsMerged (put (blocks m kind) a none) (record { mem = m; chunk = a; is_bin0 = false })
    unfolding put blocks owned_size is_held
    released e = record {
      kind = put kind a loose;
      home = home;
      valid = release-IsBin m kind home v.valid a e;
      is_loose = ground arith;
      only = λ c q. ground (arith, q, v.settled c);
      unheld = λ c. ground (arith, v.unheld c);
      rest = λ c. ground arith;
    }

    pub resize_chunk-IsResized :
        kind a ≡ taken
        → (parent : ℕ → Option ℕ) → parent (asked m si) ≡ grant
        → ((h : ℕ)
            → grant ≡ some h
            → IsGranted m.given m.heap_stub m.large_stub m.step h (asked m si))
        → IsResized
            (put (blocks m kind) a none)
            (si + 16)
            grant
            a
            (m.size a)
            si
            false
            (resize_chunk m a (resize_round si) si parent)
    unfolding resize_chunk merge_before merge_chunk remove_from_bin set_head asked
    resize_chunk-IsResized e parent same fresh =
        let w = released e in
        if_rule
          (λ r. IsResized (put (blocks m kind) a none) (si + 16) grant a (m.size a) si false r)
          (leb (resize_round si) (m.size a)) _ _
          (λ le.
            fit-IsResized _ a (m.size a) false _ w none (ground (arith, le))
              (record { copied = inl refl }))
          (λ small.
            if_rule
              (λ r.
                IsResized (put (blocks m kind) a none) (si + 16) grant a (m.size a) si false
                  (fit_or_move r (chunk2mem a) (resize_round si) si (m.size a - 8) parent))
              (m.prev_ok a && not (m.used (a - m.prev_size a))) _ _
              (λ q.
                fit_or_move-IsResized _ a (m.size a) false _
                  (join_prev _ _ w (ground (arith, q)) (ground (arith, q)) _) parent same fresh)
              (λ q. fit_or_move-IsResized _ a (m.size a) false _ w parent same fresh))

    pub resize_large-IsResized :
        kind a ≡ big
        → (o : Option ℕ) → grant ≡ o
        → ((h : ℕ)
            → grant ≡ some h
            → IsGranted m.given m.heap_stub
                (remove (a - 24) m.large_stub)
                m.step
                h
                (heap_bytes (resize_round si)))
        → IsResized
            (put (blocks m kind) a none)
            (si + 16)
            grant
            a
            (m.given (a - 24))
            si
            true
            (record {
              result = (resize_large m (a - 24) (resize_round si) o).0;
              mem = (resize_large m (a - 24) (resize_round si) o).1;
              moved = none;
            })
    unfolding resize_large free_large blocks owned_size is_held put
    resize_large-IsResized e none g fresh = lost _ g
    resize_large-IsResized e (some h) g fresh =
        let v1 = free_large-IsBin m kind home v.valid a e in
        let place : a - 24 + 24 ≡ a = omega (arith, v.valid.housed.big_low a e) in
        let mark : m.prev_size (a - 24 + 24) % 2 ≡ 1 =
          subst (λ c. m.prev_size c % 2 ≡ 1) (sym place) (v.valid.big_mark a e) in
        let some_size : 1 ≤ resize_round si = omega (arith, round_min) in
        let apart =
          heap_bytes-IsFresh m.given m.heap_stub (remove (a - 24) m.large_stub) m.step h
            (resize_round si) round_max (fresh h g) in
        let hole : put kind a gap (h + 24) ≡ gap =
          fresh_gap (put kind a gap) home m.size m.prev_size m.given m.next_ok m.prev_ok m.heap_stub
            (remove (a - 24) m.large_stub) m.step v1.tiled v1.housed h (resize_round si) some_size
            apart in
        let v2 =
          put_large-IsBin (free_large m (a - 24)) (put kind a gap) home v1 h (resize_round si)
            (m.size (a - 24 + 24)) (m.prev_size (a - 24 + 24)) (m.used (a - 24 + 24))
            (m.next_ok (a - 24 + 24)) (m.prev_ok (a - 24 + 24)) _ m.returned some_size mark apart in
        resized _ (put (put kind a gap) (h + 24) big) home (h + 24) (resize_round si) none
          (record {
            valid = v2;
            settled = λ b q. ground (arith, q, v.settled b);
            unheld = λ b. ground (arith, v.unheld b);
          })
          (ground (arith, hole)) round_room (λ b. ground (arith, hole, v.valid.housed.big_low b))
          (record { copied = inr (inl refl) })
