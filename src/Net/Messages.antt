-- ===== src/Net/Messages.antt =====
-- The bytes, integers and strings of kinclude/kci_net.h on a connection. An integer is its 16 or 32
-- bits; memory that the source allocates for a string is there.
use nihao_github_io.Base.{
  ℕ, ◌+◌, ◌*◌, ◌/◌, ◌%◌, ◌^◌, List, [], ◌∷◌, get_or, length, ltb, ◌==◌, if◌then◌else◌,
}
use nihao_github_io.Net.{
  PConn, Result, and_then, bytes, sock_send, send_data, net_flush, Reading, got, broken, recv_loop,
  read_data,
}

-- What a read returns, or the exception. `undefined` is a variable that the read does not set, or a
-- string of a negative length.
pub data Received (A G : Type 0) : Type 0 where
  received : A → PConn G → Received A G
  failed : PConn G → Received A G
  undefined : Received A G

-- `htons` and `htonl`, and `ntohs` and `ntohl`.
unfoldable pub network2 : ℕ → List ℕ
network2 i = i / 256 % 256 ∷ i % 256 ∷ []

unfoldable pub network4 : ℕ → List ℕ
network4 i = i / 16777216 % 256 ∷ i / 65536 % 256 ∷ i / 256 % 256 ∷ i % 256 ∷ []

unfoldable pub host : ℕ → List ℕ → ℕ
host i [] = i
host i (b ∷ bs) = host (i * 256 + b) bs

unfoldable pub as_memory : List ℕ → ℕ → ℕ
as_memory bs i = get_or bs i 0

unfoldable pub number_of : {G : Type 0} → ℕ → Reading G → Received ℕ G
unfolding host
number_of n (got bs d) = if length bs == n then received (host 0 bs) d else undefined
number_of n (broken d) = failed d

unfoldable pub text_of : {G : Type 0} → ℕ → Reading G → Received (List ℕ) G
text_of n (got bs d) = if length bs == n then received bs d else undefined
text_of n (broken d) = failed d

unfoldable pub then_read :
    {A B G : Type 0} → Received A G → (A → PConn G → Received B G) → Received B G
then_read (received a d) f = f a d
then_read (failed d) f = failed d
then_read undefined f = undefined

-- `backByte`: a byte of 0 is no byte.
unfoldable pub put_back_byte : {G : Type 0} → PConn G → ℕ → PConn G
put_back_byte c b = record c { back_byte = b }

module _ {G : Type 0} (turing_gen : G → (ℕ → ℕ) × G) where
  -- Those on a socket, past the buffers of the connection; nothing is read where there is none.
  unfoldable pub sock_read_byte : PConn G → Received ℕ G
  unfolding recv_loop number_of
  sock_read_byte c = if c.srv_sock then number_of 1 (recv_loop c.recvs c [] 1) else undefined

  unfoldable pub sock_read_i2 : PConn G → Received ℕ G
  unfolding recv_loop number_of
  sock_read_i2 c = if c.srv_sock then number_of 2 (recv_loop c.recvs c [] 2) else undefined

  unfoldable pub sock_read_i4 : PConn G → Received ℕ G
  unfolding recv_loop number_of
  sock_read_i4 c = if c.srv_sock then number_of 4 (recv_loop c.recvs c [] 4) else undefined

  unfoldable pub sock_send_byte : PConn G → ℕ → Result (PConn G)
  unfolding sock_send
  sock_send_byte c b = sock_send turing_gen c (b ∷ [])

  unfoldable pub sock_send_i2 : PConn G → ℕ → Result (PConn G)
  unfolding sock_send network2
  sock_send_i2 c i = sock_send turing_gen c (network2 i)

  unfoldable pub sock_send_i4 : PConn G → ℕ → Result (PConn G)
  unfolding sock_send network4
  sock_send_i4 c i = sock_send turing_gen c (network4 i)

  unfoldable pub sock_send_str : PConn G → (ℕ → ℕ) → ℕ → Result (PConn G)
  unfolding sock_send_i4 sock_send and_then bytes
  sock_send_str c buff slen =
      and_then (sock_send_i4 c slen) (λ d. sock_send turing_gen d (bytes buff 0 slen))

  unfoldable pub read_byte : PConn G → Received ℕ G
  unfolding read_data number_of
  read_byte c =
      if c.back_byte == 0
      then number_of 1 (read_data turing_gen c 1)
      else received c.back_byte (record c { back_byte = 0 })

  unfoldable pub read_i2 : PConn G → Received ℕ G
  unfolding read_data number_of
  read_i2 c = number_of 2 (read_data turing_gen c 2)

  unfoldable pub read_i4 : PConn G → Received ℕ G
  unfolding read_data number_of
  read_i4 c = number_of 4 (read_data turing_gen c 4)

  unfoldable pub read_text : ℕ → PConn G → Received (List ℕ) G
  unfolding read_data text_of
  read_text slen c =
      if ltb slen (2 ^ 31) then text_of slen (read_data turing_gen c slen) else undefined

  unfoldable pub read_str : PConn G → Received (List ℕ) G
  unfolding read_i4 read_text then_read
  read_str c = then_read (read_i4 c) read_text

  -- `skipStr` reads the bytes into a buffer of its own, and none where the length is negative.
  unfoldable pub skip_text : ℕ → PConn G → Received (Unit {0}) G
  unfolding read_data text_of then_read
  skip_text slen c =
      let text = then_read (text_of slen (read_data turing_gen c slen)) (λ s d. received tt d) in
      if ltb slen (2 ^ 31) then text else received tt c

  unfoldable pub skip_str : PConn G → Received (Unit {0}) G
  unfolding read_i4 skip_text then_read
  skip_str c = then_read (read_i4 c) skip_text

  unfoldable pub send_byte : PConn G → ℕ → Result (PConn G)
  unfolding send_data
  send_byte c b = send_data turing_gen c (λ i. b) 1

  unfoldable pub send_i2 : PConn G → ℕ → Result (PConn G)
  unfolding send_data as_memory network2
  send_i2 c i = send_data turing_gen c (as_memory (network2 i)) 2

  unfoldable pub send_i4 : PConn G → ℕ → Result (PConn G)
  unfolding send_data as_memory network4
  send_i4 c i = send_data turing_gen c (as_memory (network4 i)) 4

  unfoldable pub send_str : PConn G → (ℕ → ℕ) → ℕ → Result (PConn G)
  unfolding send_i4 send_data and_then
  send_str c buff slen = and_then (send_i4 c slen) (λ d. send_data turing_gen d buff slen)

  -- With the string's own length.
  unfoldable pub send_text : PConn G → List ℕ → Result (PConn G)
  unfolding send_str as_memory
  send_text c s = send_str c (as_memory s) (length s)

  unfoldable pub send_cmd_str : PConn G → List ℕ → Result (PConn G)
  unfolding send_byte send_i4 send_data and_then net_flush as_memory
  send_cmd_str c s =
      and_then
        (and_then
          (and_then (and_then (send_byte c b'?') (λ d. send_i4 d (length s)))
            (λ d. send_data turing_gen d (as_memory s) (length s + 1)))
          (λ d. send_i4 d 0))
        (net_flush turing_gen)
