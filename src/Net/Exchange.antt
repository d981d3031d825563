-- ===== src/Net/Exchange.antt =====
-- Strings and commands of kinclude/kci_net.h, from one end of a connection to the other.
use nihao_github_io.Base.{
  ℕ, zero, suc, ◌+◌, ◌^◌, ◌≤◌, ◌<◌, ◌≡◌, refl, ◌∙◌, sym, ap, subst, ◌⊎◌, inr, Bool, true, List, [],
  ◌∷◌, ◌++◌, length, take, drop, length-append, append-nil, ◌==◌, ltb, arith,
}
use nihao_github_io.Net.{
  Turing, PConn, Result, ok, io_error, stuck, and_then, bytes, send_data, net_flush, Reading, got,
  broken, read_data,
}
use nihao_github_io.Net.Stream.{code, length-code}
use nihao_github_io.Net.Send.{IsWritten, Outcome, Flushed, net_flush-Flushed}
use nihao_github_io.Net.Data.{longer}
use nihao_github_io.Net.Long.{skipped, send_data-Outcome}
use nihao_github_io.Net.Receive.{ahead, IsRead}
use nihao_github_io.Net.Read.{read_data-IsRead}
use nihao_github_io.Net.Ready.{IsReady, ReadyAfter, read_data-ReadyAfter}
use nihao_github_io.Net.Transfer.{take_front, IsPeer, peer_ahead}
use nihao_github_io.Net.Messages.{
  received, network4, host, as_memory, number_of, text_of, then_read, read_i4, read_text, read_str,
  send_byte, send_i4, send_str, send_text, send_cmd_str,
}

drop_front : (n : ℕ) (xs ys : List ℕ) → length xs ≡ n → drop n (xs ++ ys) ≡ ys
drop_front zero [] ys e = refl
drop_front zero (x ∷ xs) ys e = absurd (omega (arith, e))
drop_front (suc n) [] ys e = absurd (omega (arith, e))
drop_front (suc n) (x ∷ xs) ys e = drop_front n xs ys (omega (arith, e))

host-network4 : (i : ℕ) → i < 2 ^ 32 → host 0 (network4 i) ≡ i
unfolding host network4
host-network4 i h = omega (arith, h)

bytes_eq : (f g : ℕ → ℕ) (o p n : ℕ) → ((i : ℕ) → f (o + i) ≡ g (p + i)) → bytes f o n ≡ bytes g p n
unfolding bytes
bytes_eq f g o p zero e = refl
bytes_eq f g o p (suc n) e =
    let first : f o ≡ g p = ap f (plus_zero o) ∙ e 0 ∙ ap g (sym (plus_zero p)) in
    let rest =
      bytes_eq f g (o + 1) (p + 1) n (λ i. ap f (assoc o i) ∙ e (1 + i) ∙ ap g (sym (assoc p i))) in
    λ i. first i ∷ rest i
  where
    plus_zero : (o : ℕ) → o ≡ o + 0
    plus_zero o = omega arith

    assoc : (o i : ℕ) → o + 1 + i ≡ o + (1 + i)
    assoc o i = omega arith

behind_first : (b : ℕ) (s : List ℕ) (i : ℕ) → as_memory (b ∷ s) (1 + i) ≡ as_memory s (0 + i)
unfolding as_memory
behind_first b s i =
    let next : 1 + i ≡ suc i = omega arith in
    let same : i ≡ 0 + i = omega arith in ap (as_memory (b ∷ s)) next ∙ ap (as_memory s) same

bytes-as_memory : (s : List ℕ) → bytes (as_memory s) 0 (length s) ≡ s
unfolding bytes as_memory
bytes-as_memory [] = refl
bytes-as_memory (b ∷ s) =
    ap (λ x. b ∷ x)
      (bytes_eq (as_memory (b ∷ s)) (as_memory s) 1 0 (length s) (behind_first b s)
        ∙ bytes-as_memory s)

bytes-terminated : (s : List ℕ) → bytes (as_memory s) 0 (length s + 1) ≡ s ++ (0 ∷ [])
unfolding bytes as_memory
bytes-terminated [] = refl
bytes-terminated (b ∷ s) =
    let size : suc (length s) + 1 ≡ suc (length s + 1) = omega arith in
    ap (bytes (as_memory (b ∷ s)) 0) size
    ∙ ap (λ x. b ∷ x)
        (bytes_eq (as_memory (b ∷ s)) (as_memory s) 1 0 (length s + 1) (behind_first b s)
          ∙ bytes-terminated s)

module _ {G : Type 0} (turing_gen : G → (ℕ → ℕ) × G) where
  ahead_size : (c : PConn G) → length (ahead turing_gen c) ≡ length c.rbuff + length c.arriving
  ahead_size c =
      length-append c.rbuff (code turing_gen c.b_encry c.turing_r c.arriving).0
      ∙ ap (λ n. length c.rbuff + n) (length-code turing_gen c.b_encry c.turing_r c.arriving)

  -- A read of what comes next.
  next_read :
      (front more : List ℕ) (c : PConn G) (x : Reading G)
      → ahead turing_gen c ≡ front ++ more
      → IsRead turing_gen (ahead turing_gen c) [] (length front) x
      → ReadyAfter x
      → (d : PConn G) × (x ≡ got front d) × IsReady d × (ahead turing_gen d ≡ more)
  next_read front more c (got bs d) e (rest, all, size, left) v =
      let same : rest ≡ front =
        sym (take_front (length front) rest (ahead turing_gen d) size)
        ∙ ap (take (length front)) (sym left ∙ e)
        ∙ take_front (length front) front more refl in
      let behind : ahead turing_gen d ≡ more =
        sym (drop_front (length front) rest (ahead turing_gen d) size)
        ∙ ap (drop (length front)) (sym left ∙ e)
        ∙ drop_front (length front) front more refl in
      (d, ap (λ y. got y d) (all ∙ same), v, behind)
  next_read front more c (broken d) e w v = absurd v

  read_next :
      (front more : List ℕ) (c : PConn G)
      → IsReady c
      → ahead turing_gen c ≡ front ++ more
      → (d : PConn G) × (read_data turing_gen c (length front) ≡ got front d)
        × IsReady d
        × (ahead turing_gen d ≡ more)
  read_next front more c v e =
      next_read front more c (read_data turing_gen c (length front)) e
        (read_data-IsRead turing_gen c (length front) v.connected v.small)
        (read_data-ReadyAfter turing_gen c (length front) v
          (omega (arith, ap length e, length-append front more, ahead_size c)))

  read_i4-ahead :
      (i : ℕ) (more : List ℕ) (c : PConn G)
      → i < 2 ^ 32
      → IsReady c
      → ahead turing_gen c ≡ network4 i ++ more
      → (d : PConn G) × (read_i4 turing_gen c ≡ received i d)
        × IsReady d
        × (ahead turing_gen d ≡ more)
  unfolding read_i4 number_of network4
  read_i4-ahead i more c h v e =
      let r = read_next (network4 i) more c v e in
      (r.0, ap (number_of 4) r.1 ∙ ap (λ n. received n r.0) (host-network4 i h), r.2, r.3)

  read_text-ahead :
      (s more : List ℕ) (c : PConn G)
      → length s < 2 ^ 31
      → IsReady c
      → ahead turing_gen c ≡ s ++ more
      → (d : PConn G) × (read_text turing_gen (length s) c ≡ received s d)
        × IsReady d
        × (ahead turing_gen d ≡ more)
  unfolding read_text text_of
  read_text-ahead s more c h v e =
      let r = read_next s more c v e in
      let short : ltb (length s) (2 ^ 31) ≡ true = ground (arith, h) in
      let whole : (length s == length s) ≡ true = ground arith in
      (r.0, rw (short, r.1, whole) refl, r.2, r.3)

  -- A string is read where one was written.
  pub read_str-ahead :
      (s more : List ℕ) (c : PConn G)
      → length s < 2 ^ 31
      → IsReady c
      → ahead turing_gen c ≡ network4 (length s) ++ (s ++ more)
      → (d : PConn G) × (read_str turing_gen c ≡ received s d)
        × IsReady d
        × (ahead turing_gen d ≡ more)
  unfolding read_str then_read
  read_str-ahead s more c h v e =
      let n = read_i4-ahead (length s) (s ++ more) c (omega (arith, h)) v e in
      let r = read_text-ahead s more n.0 h n.2 n.3 in
      (r.0, ap (λ x. then_read x (read_text turing_gen)) n.1 ∙ r.1, r.2, r.3)

  module _ (b : Bool) (t : Turing G) (before : List ℕ) where
    -- Writing goes on where the socket has not failed.
    and_then-Outcome :
        (plain more : List ℕ) (r : Result (PConn G)) (f : PConn G → Result (PConn G))
        → Outcome turing_gen b t before plain r
        → ((c : PConn G)
            → IsWritten turing_gen b t before plain c
            → Outcome turing_gen b t before (plain ++ more) (f c))
        → Outcome turing_gen b t before (plain ++ more) (and_then r f)
    unfolding and_then
    and_then-Outcome plain more (ok c) f w h = h c w
    and_then-Outcome plain more (io_error c) f w h = longer turing_gen b t before plain more c w
    and_then-Outcome plain more stuck f w h = absurd w

    -- Bytes that are not sent past the buffer.
    write_bytes :
        (plain bs : List ℕ) (c : PConn G) (buff : ℕ → ℕ) (len : ℕ)
        → (b ≡ true) ⊎ (len ≤ 2048)
        → bytes buff 0 len ≡ bs
        → IsWritten turing_gen b t before plain c
        → Outcome turing_gen b t before (plain ++ bs) (send_data turing_gen c buff len)
    write_bytes plain bs c buff len h e w =
        let from_start : skipped c len ≡ 0 = ground (arith, h, w.mode) in
        subst (λ x. Outcome turing_gen b t before (plain ++ x) (send_data turing_gen c buff len))
          (ap (λ n. bytes buff n len) from_start ∙ e)
          (send_data-Outcome turing_gen t before b plain c buff len w)

    send_i4-Outcome :
        (plain : List ℕ) (c : PConn G) (i : ℕ)
        → IsWritten turing_gen b t before plain c
        → Outcome turing_gen b t before (plain ++ network4 i) (send_i4 turing_gen c i)
    unfolding send_i4 bytes as_memory network4
    send_i4-Outcome plain c i w =
        write_bytes plain (network4 i) c (as_memory (network4 i)) 4 (inr (omega arith)) refl w

    pub send_text-Outcome :
        (plain s : List ℕ) (c : PConn G)
        → (b ≡ true) ⊎ (length s ≤ 2048)
        → IsWritten turing_gen b t before plain c
        → Outcome turing_gen b t before
            ((plain ++ network4 (length s)) ++ s)
            (send_text turing_gen c s)
    unfolding send_text send_str
    send_text-Outcome plain s c h w =
        and_then-Outcome (plain ++ network4 (length s)) s (send_i4 turing_gen c (length s)) _
          (send_i4-Outcome plain c (length s) w)
          (λ d v.
            write_bytes (plain ++ network4 (length s)) s d (as_memory s) (length s) h
              (bytes-as_memory s) v)

    flush-Flushed :
        (plain : List ℕ) (r : Result (PConn G))
        → Outcome turing_gen b t before plain r
        → Flushed turing_gen b t before plain (and_then r (net_flush turing_gen))
    unfolding and_then
    flush-Flushed plain (ok c) w = net_flush-Flushed turing_gen b t before plain c w
    flush-Flushed plain (io_error c) w = w
    flush-Flushed plain stuck w = w

    -- `sendCmdStr` writes a question mark, the length of the command, its bytes with a zero behind
    -- them and a zero of four bytes, and leaves nothing in the buffer; if the socket fails, the
    -- wire has the start of that. The connection is encrypted, or the command has less than 2048
    -- bytes.
    pub send_cmd_str-Flushed :
        (plain s : List ℕ) (c : PConn G)
        → (b ≡ true) ⊎ (length s < 2048)
        → IsWritten turing_gen b t before plain c
        → Flushed turing_gen b t before
            ((((plain ++ (b'?' ∷ [])) ++ network4 (length s)) ++ (s ++ (0 ∷ []))) ++ network4 0)
            (send_cmd_str turing_gen c s)
    unfolding send_cmd_str send_byte bytes
    send_cmd_str-Flushed plain s c h w =
        let p1 = plain ++ (b'?' ∷ []) in
        let p2 = p1 ++ network4 (length s) in
        let p3 = p2 ++ (s ++ (0 ∷ [])) in
        flush-Flushed (p3 ++ network4 0) _ (
          and_then-Outcome p3 (network4 0) _ _
            (and_then-Outcome p2 (s ++ (0 ∷ [])) _ _
              (and_then-Outcome p1 (network4 (length s)) _ _
                (write_bytes plain (b'?' ∷ []) c (λ i. b'?') 1 (inr (omega arith)) refl w)
                (λ d v. send_i4-Outcome p1 d (length s) v))
              (λ d v.
                write_bytes p2 (s ++ (0 ∷ [])) d (as_memory s) (length s + 1) (ground (arith, h))
                  (bytes-terminated s) v))
            (λ d v. send_i4-Outcome p3 d 0 v))

  -- A string that is sent with `sendStr` and flushed is read back by `readStr`: the reader stands
  -- at the other end with the same first keys, and its calls of `recv` to come do not fail and are
  -- as many as the bytes to come. The string has less than 2 ^ 31 bytes, and no more than 2048
  -- where the connection is not encrypted.
  pub read_str-send_text :
      (b : Bool) (t : Turing G) (s : List ℕ) (c d r : PConn G)
      → IsWritten turing_gen b t [] [] c
      → (b ≡ true) ⊎ (length s ≤ 2048)
      → length s < 2 ^ 31
      → and_then (send_text turing_gen c s) (net_flush turing_gen) ≡ ok d
      → IsPeer turing_gen b t d r
      → IsReady r
      → (r' : PConn G) × (read_str turing_gen r ≡ received s r')
  read_str-send_text b t s c d r w h short e p ready =
      let (v, empty) =
        subst (Flushed turing_gen b t [] (network4 (length s) ++ s)) e (
          flush-Flushed b t [] (network4 (length s) ++ s) _
            (send_text-Outcome b t [] [] s c h w)) in
      let x = read_str-ahead s [] r short ready (
        peer_ahead turing_gen b t (network4 (length s) ++ s) d r v empty p
        ∙ ap (λ y. network4 (length s) ++ y) (sym (append-nil s))) in
      (x.0, x.1)
