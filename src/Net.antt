-- ===== src/Net.antt =====
-- The packet buffers of ksources/kci_netio.cpp and kinclude/kci_net.h. A connection keeps the bytes
-- that wait to be sent and those that were received and not read yet; `sbuff` is its bytes up to
-- `put_pos`, and `rbuff` those from `read_pos` to `recv_pos`. The socket is the bytes that it sent,
-- those that will arrive, and for each call of `send` and `recv` to come the most bytes that the
-- call moves, 0 for one that fails.
pub mod Xor
pub mod Stream
pub mod Send
pub mod Data
pub mod Long
pub mod Receive
pub mod Read
pub mod Transfer
pub mod Messages
pub mod Ready
pub mod Exchange
mod Tests
use Prim.Native.Nat.{bit_xor}
use nihao_github_io.Base.{
  ℕ, zero, suc, ◌+◌, ◌-◌, ◌%◌, Bool, true, false, not, ◌&&◌, List, [], ◌∷◌, ◌++◌, ltb, leb, ◌==◌,
  if◌then◌else◌, length, take, drop,
}

-- `TuringData`: the key stream, the position in its use, and the state of the generator.
pub record Turing (G : Type 0) : Type 0 where
  pub key_stream : ℕ → ℕ
  pub pos : ℕ
  pub gen : G

pub record PConn (G : Type 0) : Type 0 where
  pub srv_sock : Bool
  pub b_encry : Bool
  pub turing_s : Turing G
  pub turing_r : Turing G
  pub sbuff : List ℕ
  pub rbuff : List ℕ
  pub sent : List ℕ
  pub sends : List ℕ
  pub arriving : List ℕ
  pub recvs : List ℕ
  pub back_byte : ℕ

-- `IOEx` ends a call early; `stuck` is a loop that ran out of fuel.
pub data Result (A : Type 0) : Type 0 where
  ok : A → Result A
  io_error : A → Result A
  stuck : Result A

unfoldable pub and_then : {A : Type 0} → Result A → (A → Result A) → Result A
and_then (ok a) f = f a
and_then (io_error a) f = io_error a
and_then stuck f = stuck

-- `len` bytes of the memory behind a pointer.
unfoldable pub bytes : (ℕ → ℕ) → ℕ → ℕ → List ℕ
bytes buff off zero = []
bytes buff off (suc len) = buff off ∷ bytes buff (off + 1) len

-- The generator of the cipher gives a key stream and its next state.
module _ {G : Type 0} (turing_gen : G → (ℕ → ℕ) × G) where
  unfoldable pub renew : Turing G → Turing G
  renew t =
      let (key_stream, gen) = turing_gen t.gen in
      record { key_stream = key_stream; pos = 0; gen = gen }

  -- One byte on: after ten uses of the stream a new one is made.
  unfoldable pub next_key : Turing G → Turing G
  unfolding renew
  next_key t =
      let used = record t { pos = t.pos + 1 } in if t.pos + 1 == 3400 then renew used else used

  -- `encrypt_buff` and `decrypt_buff`, on the keys of the one and the other direction.
  unfoldable pub crypt_buff : Turing G → List ℕ → List ℕ × Turing G
  unfolding next_key
  crypt_buff t [] = ([], t)
  crypt_buff t (b ∷ bs) =
      let (rest, t') = crypt_buff (next_key t) bs in
      (bit_xor b (t.key_stream (t.pos % 340)) ∷ rest, t')

  -- `sockSend`, and the call of it on a connection.
  unfoldable pub send_loop : PConn G → List ℕ → List ℕ → Result (PConn G)
  send_loop c sends [] = ok (record c { sends = sends })
  send_loop c [] (b ∷ bs) = io_error (record c { sends = [] })
  send_loop c (n ∷ sends) (b ∷ bs) =
      let rest =
        send_loop (record c { sent = c.sent ++ take n (b ∷ bs) }) sends (drop n (b ∷ bs)) in
      if n == 0 then io_error (record c { sends = sends }) else rest

  unfoldable pub sock_send : PConn G → List ℕ → Result (PConn G)
  unfolding send_loop
  sock_send c bs = if c.srv_sock then send_loop c c.sends bs else ok c

  -- `if (b_encry) encrypt_buff(…)`.
  unfoldable pub encrypt_sbuff : PConn G → PConn G
  unfolding crypt_buff
  encrypt_sbuff c =
      let (bs, t) = crypt_buff c.turing_s c.sbuff in
      if c.b_encry then record c { sbuff = bs; turing_s = t } else c

  -- The buffer is encrypted, sent and emptied.
  unfoldable pub transmit : PConn G → Result (PConn G)
  unfolding encrypt_sbuff sock_send and_then
  transmit c =
      let sealed = encrypt_sbuff c in
      and_then (sock_send sealed sealed.sbuff) (λ d. ok (record d { sbuff = [] }))

  unfoldable pub net_flush : PConn G → Result (PConn G)
  unfolding transmit
  net_flush c = if c.srv_sock then (if length c.sbuff == 0 then ok c else transmit c) else ok c

  -- `if (mlen == 0) …`.
  unfoldable pub make_room : PConn G → Result (PConn G)
  unfolding transmit
  make_room c = if 2048 - length c.sbuff == 0 then transmit c else ok c

  -- The loop for small data: each round puts at least one byte into the buffer.
  unfoldable pub send_small : ℕ → PConn G → List ℕ → Result (PConn G)
  unfolding make_room and_then
  send_small fuel c [] = ok c
  send_small zero c (b ∷ bs) = stuck
  send_small (suc fuel) c (b ∷ bs) = and_then (make_room c) λ d.
      let mlen = 2048 - length d.sbuff in
      send_small fuel (record d { sbuff = d.sbuff ++ take mlen (b ∷ bs) }) (drop mlen (b ∷ bs))

  -- The branch for long data. Behind a full or half-full buffer the source goes on at
  -- `buff + put_pos`, for as many bytes as before.
  unfoldable pub send_long : PConn G → (ℕ → ℕ) → ℕ → Result (PConn G)
  unfolding sock_send and_then bytes
  send_long c buff len =
      if ltb 0 (length c.sbuff)
      then and_then (sock_send c c.sbuff)
          (λ d. sock_send (record d { sbuff = [] }) (bytes buff (length c.sbuff) len))
      else sock_send (record c { sbuff = [] }) (bytes buff 0 len)

  unfoldable pub send_data : PConn G → (ℕ → ℕ) → ℕ → Result (PConn G)
  unfolding send_small send_long bytes
  send_data c buff len =
      if ltb 2048 len && not c.b_encry
      then send_long c buff len
      else send_small len c (bytes buff 0 len)

-- What a read gives: the bytes and the connection behind them, or the exception.
pub data Reading (G : Type 0) : Type 0 where
  got : List ℕ → PConn G → Reading G
  broken : PConn G → Reading G

-- A call of `recv` for at most `n` bytes that moves at most `k`.
unfoldable pub recv : {G : Type 0} → PConn G → ℕ → ℕ → List ℕ
recv c n k = take n (take k c.arriving)

unfoldable pub arrived : {G : Type 0} → PConn G → List ℕ → PConn G
arrived c bs = record c { arriving = drop (length bs) c.arriving }

-- `sockRecv`, behind the bytes that are already read.
unfoldable pub recv_loop : {G : Type 0} → List ℕ → PConn G → List ℕ → ℕ → Reading G
unfolding recv arrived
recv_loop recvs c done zero = got done (record c { recvs = recvs })
recv_loop [] c done (suc len) = broken (record c { recvs = [] })
recv_loop (k ∷ recvs) c done (suc len) =
    let bs = recv c (suc len) k in
    let rest = recv_loop recvs (arrived c bs) (done ++ bs) (suc len - length bs) in
    if length bs == 0 then broken (record c { recvs = recvs }) else rest

-- What the buffer holds is enough.
unfoldable pub read_buffer : {G : Type 0} → List ℕ → PConn G → List ℕ → ℕ → Reading G
read_buffer recvs c done len =
    got (done ++ take len c.rbuff) (record c { rbuff = drop len c.rbuff; recvs = recvs })

module _ {G : Type 0} (turing_gen : G → (ℕ → ℕ) × G) where
  -- `if (b_encry) decrypt_buff(…)`, and the bytes become the buffer.
  unfoldable pub refill : PConn G → List ℕ → PConn G
  unfolding crypt_buff
  refill c bs =
      let (plain, t) = crypt_buff turing_gen c.turing_r bs in
      if c.b_encry then record c { rbuff = plain; turing_r = t } else record c { rbuff = bs }

  -- The loop for small data.
  unfoldable pub read_small : List ℕ → PConn G → List ℕ → ℕ → Reading G
  unfolding recv arrived read_buffer refill
  read_small [] c done len =
      if leb len (length c.rbuff)
      then read_buffer [] c done len
      else broken (record c { recvs = []; rbuff = [] })
  read_small (k ∷ recvs) c done len =
      let bs = recv c 2048 k in
      let rest =
        read_small recvs (refill (arrived c bs) bs) (done ++ c.rbuff) (len - length c.rbuff) in
      if leb len (length c.rbuff)
      then read_buffer (k ∷ recvs) c done len
      else if length bs == 0
      then broken (record c { recvs = recvs; rbuff = [] })
      else rest

  unfoldable pub read_data : PConn G → ℕ → Reading G
  unfolding read_small recv_loop
  read_data c len =
      if c.srv_sock
      then (if ltb 2048 len && not c.b_encry
          then recv_loop c.recvs (record c { rbuff = [] }) c.rbuff (len - length c.rbuff)
          else read_small c.recvs c [] len)
      else got [] c
