-- ===== src/Net/Ready.antt =====
-- Reads one after the other, of ksources/kci_netio.cpp.
use nihao_github_io.Base.{
  ℕ, zero, suc, ◌+◌, ◌-◌, ◌≤◌, ◌<◌, ◌≡◌, refl, ◌∙◌, ap, Bool, true, false, not, ◌&&◌, List, [], ◌∷◌,
  ◌++◌, length, length-drop, if_rule, ◌==◌, ltb, leb, arith,
}
use nihao_github_io.Net.{
  PConn, Reading, got, broken, recv, arrived, recv_loop, read_buffer, refill, read_small, read_data,
}
use nihao_github_io.Net.Receive.{refill_lem}
use nihao_github_io.Net.Read.{
  Moving, recv_moves, length-recv, few_bytes, length-arrived, length-refill, arriving-refill,
}

-- The calls of `recv` to come move some bytes each, and are as many as the bytes to come.
pub record IsReady {G : Type 0} (c : PConn G) : Type 0 where
  pub connected : c.srv_sock ≡ true
  pub moving : Moving c.recvs
  pub calls : length c.arriving ≤ length c.recvs
  pub small : length c.rbuff ≤ 2048

abbrev pub ReadyAfter : {G : Type 0} → Reading G → Type 0
ReadyAfter (got bs d) = IsReady d
ReadyAfter (broken d) = ⊥

module _ {G : Type 0} (turing_gen : G → (ℕ → ℕ) × G) where
  connected-refill : (c : PConn G) (bs : List ℕ) → (refill turing_gen c bs).srv_sock ≡ c.srv_sock
  connected-refill c bs = ap (λ d. d.srv_sock) (refill_lem turing_gen c.b_encry c bs refl)

  read_small-ReadyAfter :
      (recvs : List ℕ) (c : PConn G) (done : List ℕ) (len : ℕ)
      → c.srv_sock ≡ true
      → Moving recvs
      → length c.arriving ≤ length recvs
      → length c.rbuff ≤ 2048
      → len ≤ length c.rbuff + length c.arriving
      → ReadyAfter (read_small turing_gen recvs c done len)
  unfolding read_small read_buffer arrived
  read_small-ReadyAfter [] c done len on moving calls small bytes =
      if_rule ReadyAfter (leb len (length c.rbuff)) _ _
        (λ _. record {
          connected = on;
          moving = tt;
          calls = calls;
          small = omega (arith, small, length-drop len c.rbuff);
        })
        (λ e. ground (arith, e))
  read_small-ReadyAfter (k ∷ recvs) c done len on moving calls small bytes =
      let bs = recv c 2048 k in
      let next = refill turing_gen (arrived c bs) bs in
      if_rule ReadyAfter (leb len (length c.rbuff)) _ _
        (λ _. record {
          connected = on;
          moving = moving;
          calls = calls;
          small = omega (arith, small, length-drop len c.rbuff);
        })
        (λ e.
          let waits : length c.rbuff < len = ground (arith, e) in
          let moves = recv_moves turing_gen c 2048 k (omega arith) moving.0 (omega arith) in
          let few : length bs ≤ length c.arriving = few_bytes turing_gen c 2048 k in
          let came = ap length (arriving-refill turing_gen (arrived c bs) bs) in
          let size = length-refill turing_gen (arrived c bs) bs in
          let left = length-arrived turing_gen c bs in
          if_rule ReadyAfter (length bs == 0) _ _ (λ f. absurd (ground (arith, f, moves)))
            (λ _.
              read_small-ReadyAfter recvs next (done ++ c.rbuff) (len - length c.rbuff)
                (connected-refill (arrived c bs) bs ∙ on) moving.1
                (omega (arith, came, left, moves))
                (omega (arith, size, length-recv turing_gen c 2048 k))
                (omega (arith, size, came, left))))

  recv_loop-ReadyAfter :
      (recvs : List ℕ) (c : PConn G) (done : List ℕ) (len : ℕ)
      → c.srv_sock ≡ true
      → Moving recvs
      → length c.arriving ≤ length recvs
      → length c.rbuff ≤ 2048
      → len ≤ length c.arriving
      → ReadyAfter (recv_loop recvs c done len)
  unfolding recv_loop arrived
  recv_loop-ReadyAfter recvs c done zero on moving calls small bytes = record {
    connected = on;
    moving = moving;
    calls = calls;
    small = small;
  }
  recv_loop-ReadyAfter [] c done (suc len) on moving calls small bytes = absurd (omega arith)
  recv_loop-ReadyAfter (k ∷ recvs) c done (suc len) on moving calls small bytes =
      let bs = recv c (suc len) k in
      let moves = recv_moves turing_gen c (suc len) k (omega arith) moving.0 (omega arith) in
      let left = length-arrived turing_gen c bs in
      if_rule ReadyAfter (length bs == 0) _ _ (λ f. absurd (ground (arith, f, moves)))
        (λ _.
          recv_loop-ReadyAfter recvs (arrived c bs) (done ++ bs) (suc len - length bs) on moving.1
            (omega (arith, left, moves)) small
            (omega (arith, left, length-recv turing_gen c (suc len) k)))

  pub read_data-ReadyAfter :
      (c : PConn G) (len : ℕ)
      → IsReady c
      → len ≤ length c.rbuff + length c.arriving
      → ReadyAfter (read_data turing_gen c len)
  unfolding read_data
  read_data-ReadyAfter c len v bytes =
      if_rule ReadyAfter c.srv_sock _ _
        (λ _.
          if_rule ReadyAfter (ltb 2048 len && not c.b_encry) _ _
            (λ _.
              recv_loop-ReadyAfter c.recvs (record c { rbuff = [] }) c.rbuff (len - length c.rbuff)
                v.connected v.moving v.calls (omega arith) (omega arith))
            (λ _.
              read_small-ReadyAfter c.recvs c [] len v.connected v.moving v.calls v.small bytes))
        (λ e. absurd (never e v.connected))
    where
      never : {b : Bool} → b ≡ false → b ≡ true → ⊥
      never e f = cc
