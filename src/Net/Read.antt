-- ===== src/Net/Read.antt =====
-- `readData` as a whole, and that a read ends while bytes arrive.
use nihao_github_io.Base.{
  ℕ, zero, suc, ◌+◌, ◌-◌, ◌≤◌, ◌<◌, ◌≡◌, refl, ◌∙◌, sym, ap, subst, Bool, true, false, not, ◌&&◌,
  List, [], ◌∷◌, ◌++◌, length, take, drop, length-take, length-drop, append-nil, if_rule, ◌==◌, ltb,
  leb, arith,
}
use nihao_github_io.Net.{
  Turing, PConn, Reading, got, broken, recv, arrived, recv_loop, read_buffer, refill, read_small,
  read_data,
}
use nihao_github_io.Net.Stream.{code, length-code}
use nihao_github_io.Net.Receive.{
  recv_parts, ahead, IsRead, after_buffer, read_small-IsRead, refill_lem,
}

-- All calls of `recv` to come move some bytes, if there are any.
abbrev pub Moving : List ℕ → Type 0
Moving [] = Unit {0}
Moving (k ∷ ks) = (0 < k) × Moving ks

abbrev pub IsGot : {G : Type 0} → Reading G → Type 0
IsGot (got bs d) = Unit {0}
IsGot (broken d) = ⊥

module _ {G : Type 0} (turing_gen : G → (ℕ → ℕ) × G) where
  plain_ahead :
      (rest arriving : List ℕ) (b : Bool) (t : Turing G)
      → rest ≡ []
      → b ≡ false
      → rest ++ (code turing_gen b t arriving).0 ≡ arriving
  plain_ahead [] arriving false t e f = refl
  plain_ahead [] arriving true t e f = absurd cc
  plain_ahead (x ∷ rest) arriving b t e f = absurd cc

  arrived_rbuff : (c : PConn G) (bs : List ℕ) → c.rbuff ≡ [] → (arrived c bs).rbuff ≡ []
  unfolding arrived
  arrived_rbuff c bs e = e

  arrived_mode : (c : PConn G) (bs : List ℕ) → c.b_encry ≡ false → (arrived c bs).b_encry ≡ false
  unfolding arrived
  arrived_mode c bs e = e

  pub length-recv : (c : PConn G) (n k : ℕ) → length (recv c n k) ≤ n
  unfolding recv
  length-recv c n k = omega (arith, length-take n (take k c.arriving))

  one_call :
      (c : PConn G) (n k : ℕ)
      → c.rbuff ≡ []
      → c.b_encry ≡ false
      → recv c n k ++ ahead turing_gen (arrived c (recv c n k)) ≡ ahead turing_gen c
  unfolding recv arrived
  one_call c n k e f =
      let bs = take n (take k c.arriving) in
      ap (λ x. bs ++ x) (plain_ahead c.rbuff (drop (length bs) c.arriving) c.b_encry c.turing_r e f)
      ∙ recv_parts n k c.arriving
      ∙ sym (plain_ahead c.rbuff c.arriving c.b_encry c.turing_r e f)

  recv_loop-IsRead :
      (recvs : List ℕ) (c : PConn G) (done : List ℕ) (len : ℕ)
      → c.rbuff ≡ []
      → c.b_encry ≡ false
      → IsRead turing_gen (ahead turing_gen c) done len (recv_loop recvs c done len)
  unfolding recv_loop
  recv_loop-IsRead recvs c done zero e f = ([], sym (append-nil done), refl, refl)
  recv_loop-IsRead [] c done (suc len) e f = tt
  recv_loop-IsRead (k ∷ recvs) c done (suc len) e f =
      let bs = recv c (suc len) k in
      let next = arrived c bs in
      let P = IsRead turing_gen (ahead turing_gen c) done (suc len) in
      if_rule P (length bs == 0) _ _ (λ _. tt)
        (λ _.
          let rest = recv_loop recvs next (done ++ bs) (suc len - length bs) in
          subst (λ x. IsRead turing_gen x done (suc len) rest) (one_call c (suc len) k e f)
            (after_buffer turing_gen bs (ahead turing_gen next) done (suc len) rest
              (length-recv c (suc len) k)
              (recv_loop-IsRead recvs next (done ++ bs) (suc len - length bs) (arrived_rbuff c bs e)
                (arrived_mode c bs f))))

  -- `readData` for `len` bytes, buffered or directly, encrypted or not, in any number of calls of
  -- `recv`: if it returns, it has the next `len` bytes of what the connection was about to read,
  -- decoded, and the connection is about to read the bytes behind them.
  pub read_data-IsRead :
      (c : PConn G) (len : ℕ)
      → c.srv_sock ≡ true
      → length c.rbuff ≤ 2048
      → IsRead turing_gen (ahead turing_gen c) [] len (read_data turing_gen c len)
  unfolding read_data
  read_data-IsRead c len connected small =
      let P = IsRead turing_gen (ahead turing_gen c) [] len in
      if_rule P c.srv_sock _ _
        (λ _.
          if_rule P (ltb 2048 len && not c.b_encry) _ _
            (λ long.
              let raw = record c { rbuff = [] } in
              after_buffer turing_gen c.rbuff _ [] len
                (recv_loop c.recvs raw c.rbuff (len - length c.rbuff))
                (long_size c.b_encry len (length c.rbuff) long small)
                (recv_loop-IsRead c.recvs raw c.rbuff (len - length c.rbuff) refl
                  (long_mode c.b_encry len long)))
            (λ _. read_small-IsRead turing_gen c.recvs c [] len))
        (λ e. absurd cc)
    where
      long_size :
          (b : Bool) (len size : ℕ) → (ltb 2048 len && not b) ≡ true → size ≤ 2048 → size ≤ len
      long_size b len size long small = ground arith

      long_mode : (b : Bool) (len : ℕ) → (ltb 2048 len && not b) ≡ true → b ≡ false
      long_mode b len long = ground arith

  pub recv_moves :
      (c : PConn G) (n k : ℕ) → 0 < n → 0 < k → 0 < length c.arriving → 0 < length (recv c n k)
  unfolding recv
  recv_moves c n k a b h =
      omega (arith, length-take n (take k c.arriving), length-take k c.arriving)

  pub few_bytes : (c : PConn G) (n k : ℕ) → length (recv c n k) ≤ length c.arriving
  unfolding recv
  few_bytes c n k = omega (arith, length-take n (take k c.arriving), length-take k c.arriving)

  pub length-arrived :
      (c : PConn G) (bs : List ℕ) → length (arrived c bs).arriving ≡ length c.arriving - length bs
  unfolding arrived
  length-arrived c bs = length-drop (length bs) c.arriving

  pub length-refill :
      (c : PConn G) (bs : List ℕ) → length (refill turing_gen c bs).rbuff ≡ length bs
  length-refill c bs =
      ap (λ d. length d.rbuff) (refill_lem turing_gen c.b_encry c bs refl)
      ∙ length-code turing_gen c.b_encry c.turing_r bs

  pub arriving-refill : (c : PConn G) (bs : List ℕ) → (refill turing_gen c bs).arriving ≡ c.arriving
  arriving-refill c bs = ap (λ d. d.arriving) (refill_lem turing_gen c.b_encry c bs refl)

  pub read_small-IsGot :
      (recvs : List ℕ) (c : PConn G) (done : List ℕ) (len : ℕ)
      → Moving recvs
      → len ≤ length c.rbuff + length recvs
      → len ≤ length c.rbuff + length c.arriving
      → IsGot (read_small turing_gen recvs c done len)
  unfolding read_small read_buffer
  read_small-IsGot [] c done len moving calls bytes =
      if_rule IsGot (leb len (length c.rbuff)) _ _ (λ _. tt) (λ e. ground (arith, e))
  read_small-IsGot (k ∷ recvs) c done len moving calls bytes =
      let bs = recv c 2048 k in
      let next = refill turing_gen (arrived c bs) bs in
      if_rule IsGot (leb len (length c.rbuff)) _ _ (λ _. tt)
        (λ e.
          let waits : length c.rbuff < len = ground (arith, e) in
          let moves = recv_moves c 2048 k (omega arith) moving.0 (omega arith) in
          let few : length bs ≤ length c.arriving = few_bytes c 2048 k in
          if_rule IsGot (length bs == 0) _ _ (λ f. absurd (ground (arith, f, moves)))
            (λ _.
              read_small-IsGot recvs next (done ++ c.rbuff) (len - length c.rbuff) moving.1
                (omega (arith, length-refill (arrived c bs) bs, moves))
                (omega (
                  arith,
                  length-refill (arrived c bs) bs,
                  ap length (arriving-refill (arrived c bs) bs),
                  length-arrived c bs,
                ))))
