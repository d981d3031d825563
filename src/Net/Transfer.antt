-- ===== src/Net/Transfer.antt =====
-- From the one end of a connection to the other.
use nihao_github_io.Base.{
  ℕ, zero, suc, ◌+◌, ◌-◌, ◌≤◌, ◌≡◌, refl, ◌∙◌, sym, ap, subst, Bool, true, not, ◌&&◌, List, [], ◌∷◌,
  ◌++◌, length, take, append-nil, if_rule, ◌==◌, ltb, arith,
}
use nihao_github_io.Net.{
  Turing, PConn, ok, net_flush, Reading, got, broken, recv, arrived, recv_loop, read_data,
}
use nihao_github_io.Net.Stream.{code, code_twice, length-code}
use nihao_github_io.Net.Send.{IsWritten, Flushed, net_flush-Flushed}
use nihao_github_io.Net.Receive.{ahead, IsRead}
use nihao_github_io.Net.Read.{
  Moving, IsGot, recv_moves, length-arrived, read_small-IsGot, read_data-IsRead,
}

recv_loop-IsGot :
    {G : Type 0} (turing_gen : G → (ℕ → ℕ) × G) (recvs : List ℕ) (c : PConn G) (done : List ℕ)
    (len : ℕ)
    → Moving recvs
    → len ≤ length recvs
    → len ≤ length c.arriving
    → IsGot (recv_loop recvs c done len)
unfolding recv_loop
recv_loop-IsGot turing_gen recvs c done zero moving calls bytes = tt
recv_loop-IsGot turing_gen [] c done (suc len) moving calls bytes = absurd (omega arith)
recv_loop-IsGot turing_gen (k ∷ recvs) c done (suc len) moving calls bytes =
    let bs = recv c (suc len) k in
    let moves = recv_moves turing_gen c (suc len) k (omega arith) moving.0 (omega arith) in
    if_rule IsGot (length bs == 0) _ _ (λ f. absurd (ground (arith, f, moves)))
      (λ _.
        recv_loop-IsGot turing_gen recvs (arrived c bs) (done ++ bs) (suc len - length bs) moving.1
          (omega (arith, moves)) (omega (arith, moves, length-arrived turing_gen c bs)))

pub take_front : (n : ℕ) (xs ys : List ℕ) → length xs ≡ n → take n (xs ++ ys) ≡ xs
take_front zero [] ys e = refl
take_front zero (x ∷ xs) ys e = absurd (omega (arith, e))
take_front (suc n) [] ys e = absurd (omega (arith, e))
take_front (suc n) (x ∷ xs) ys e = ap (λ zs. x ∷ zs) (take_front n xs ys (omega (arith, e)))

module _ {G : Type 0} (turing_gen : G → (ℕ → ℕ) × G) where
  -- A read of `len` bytes returns if the connection holds or is about to receive as many, and
  -- `len` calls of `recv` to come do not fail.
  pub read_data-IsGot :
      (c : PConn G) (len : ℕ)
      → Moving c.recvs
      → len ≤ length c.recvs
      → len ≤ length c.rbuff + length c.arriving
      → IsGot (read_data turing_gen c len)
  unfolding read_data
  read_data-IsGot c len moving calls bytes =
      if_rule IsGot c.srv_sock _ _
        (λ _.
          if_rule IsGot (ltb 2048 len && not c.b_encry) _ _
            (λ _.
              recv_loop-IsGot turing_gen c.recvs (record c { rbuff = [] }) c.rbuff
                (len - length c.rbuff) moving (omega arith) (omega arith))
            (λ _. read_small-IsGot turing_gen c.recvs c [] len moving (omega arith) (omega arith)))
        (λ _. tt)

  -- The reader `r` stands at the other end of what `d` sent: it starts with the keys `t`.
  pub record IsPeer (b : Bool) (t : Turing G) (d r : PConn G) : Type 0 where
    pub connected : r.srv_sock ≡ true
    pub mode : r.b_encry ≡ b
    pub key : r.turing_r ≡ t
    pub fresh : r.rbuff ≡ []
    pub wire : r.arriving ≡ d.sent

  all_out :
      (b : Bool) (t : Turing G) (plain : List ℕ) (d : PConn G)
      → (w : IsWritten turing_gen b t [] plain d) → d.sbuff ≡ []
      → plain ≡ w.out
  all_out b t plain d w empty = w.parts ∙ ap (λ x. w.out ++ x) empty ∙ append-nil w.out

  pub peer_size :
      (b : Bool) (t : Turing G) (plain : List ℕ) (d r : PConn G)
      → IsWritten turing_gen b t [] plain d
      → d.sbuff ≡ []
      → IsPeer b t d r
      → length r.arriving ≡ length plain
  peer_size b t plain d r w empty p =
      ap length (p.wire ∙ w.wire)
      ∙ length-code turing_gen b t w.out
      ∙ ap length (sym (all_out b t plain d w empty))

  pub peer_ahead :
      (b : Bool) (t : Turing G) (plain : List ℕ) (d r : PConn G)
      → IsWritten turing_gen b t [] plain d
      → d.sbuff ≡ []
      → IsPeer b t d r
      → ahead turing_gen r ≡ plain
  peer_ahead b t plain d r w empty p =
      ap (λ x. x ++ (code turing_gen r.b_encry r.turing_r r.arriving).0) p.fresh
      ∙ ap (λ m. (code turing_gen m r.turing_r r.arriving).0) p.mode
      ∙ ap (λ k. (code turing_gen b k r.arriving).0) p.key
      ∙ ap (λ x. (code turing_gen b t x).0) (p.wire ∙ w.wire)
      ∙ ap (λ x. x.0) (code_twice turing_gen b t w.out)
      ∙ sym (all_out b t plain d w empty)

  finish :
      (plain : List ℕ) (len : ℕ) (x : Reading G)
      → IsRead turing_gen plain [] len x
      → IsGot x
      → (r' : PConn G) × (x ≡ got (take len plain) r')
  finish plain len (got bs r') (more, all, size, left) h = (
    r',
    ap (λ y. got y r')
        (all ∙ sym (take_front len more (ahead turing_gen r') size) ∙ ap (take len) (sym left)),
  )
  finish plain len (broken r') v h = absurd h

  -- What was written to a connection and flushed arrives: a reader at the other end, with the same
  -- first keys and calls of `recv` that do not fail, reads the first `len` bytes of `plain`, in
  -- whatever portions the socket takes and gives them.
  pub read_data-net_flush :
      (b : Bool) (t : Turing G) (plain : List ℕ) (c d r : PConn G) (len : ℕ)
      → IsWritten turing_gen b t [] plain c
      → net_flush turing_gen c ≡ ok d
      → IsPeer b t d r
      → Moving r.recvs
      → len ≤ length r.recvs
      → len ≤ length plain
      → (r' : PConn G) × (read_data turing_gen r len ≡ got (take len plain) r')
  read_data-net_flush b t plain c d r len w e p moving calls size =
      let (v, empty) =
        subst (Flushed turing_gen b t [] plain) e (net_flush-Flushed turing_gen b t [] plain c w) in
      finish plain len (read_data turing_gen r len)
        (subst (λ x. IsRead turing_gen x [] len (read_data turing_gen r len))
          (peer_ahead b t plain d r v empty p)
          (read_data-IsRead turing_gen r len p.connected (omega (arith, ap length p.fresh))))
        (read_data-IsGot r len moving calls
          (omega (arith, peer_size b t plain d r v empty p, size)))
