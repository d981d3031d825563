-- ===== src/Net/Long.antt =====
-- `sendData` as a whole, with its branch for long data.
use nihao_github_io.Base.{
  ℕ, zero, suc, ◌+◌, ◌≡◌, refl, ◌∙◌, sym, ap, subst, Bool, true, false, not, ◌&&◌, List, [], ◌++◌,
  length, append-nil, append_assoc, if_rule, if◌then◌else◌, Bool-cases, ltb, inl, inr, arith,
}
use nihao_github_io.Net.{Turing, PConn, sock_send, send_long, send_data, bytes}
use nihao_github_io.Net.Send.{
  sock_send-IsSent, sent_then, sent_rule, no_bytes, IsWritten, IsCut, Outcome, emptied, code_out,
}
use nihao_github_io.Net.Data.{send_small-Outcome, longer}

pub length-bytes : (buff : ℕ → ℕ) (off len : ℕ) → length (bytes buff off len) ≡ len
unfolding bytes
length-bytes buff off zero = refl
length-bytes buff off (suc len) = ap suc (length-bytes buff (off + 1) len)

-- Where `sendData` starts to read: at the start of the data, but for long data that is not
-- encrypted as far behind it as bytes wait in the buffer.
abbrev pub skipped : {G : Type 0} → PConn G → ℕ → ℕ
skipped c len = if ltb 2048 len && not c.b_encry then length c.sbuff else 0

module _ {G : Type 0} (turing_gen : G → (ℕ → ℕ) × G) (t : Turing G) (before : List ℕ) where
  -- Bytes past an empty buffer, not encrypted.
  raw :
      (plain : List ℕ) (c : PConn G) (bs : List ℕ) (sends : List ℕ)
      → IsWritten turing_gen false t before plain c
      → c.sbuff ≡ []
      → IsWritten turing_gen false t before
          (plain ++ bs)
          (record c { sent = c.sent ++ bs; sends = sends })
  raw plain c bs sends w e =
      let all : plain ≡ w.out = w.parts ∙ ap (λ x. w.out ++ x) e ∙ append-nil w.out in
      record {
        out = plain ++ bs;
        parts = sym (append-nil (plain ++ bs)) ∙ ap (λ x. (plain ++ bs) ++ x) (sym e);
        wire =
            ap (λ x. x ++ bs) (w.wire ∙ ap (λ x. before ++ x) (sym all))
            ∙ append_assoc before plain bs;
        key = w.key;
        small = w.small;
        connected = w.connected;
        mode = w.mode;
      }

  cut :
      (plain : List ℕ) (c : PConn G) (bs first rest : List ℕ) (sends : List ℕ)
      → IsWritten turing_gen false t before
          (plain ++ bs)
          (record c { sent = c.sent ++ bs; sends = sends })
      → bs ≡ first ++ rest
      → c.sbuff ≡ []
      → IsCut turing_gen false t before
          (plain ++ bs)
          (record c { sent = c.sent ++ first; sends = sends })
  cut plain c bs first rest sends w parts e = (
    rest,
    ap (λ x. before ++ x) (w.parts ∙ ap (λ x. w.out ++ x) e ∙ append-nil w.out)
        ∙ sym w.wire
        ∙ ap (λ x. c.sent ++ x) parts
        ∙ sym (append_assoc c.sent first rest),
  )

  direct :
      (plain : List ℕ) (c : PConn G) (bs : List ℕ)
      → IsWritten turing_gen false t before plain c
      → c.sbuff ≡ []
      → Outcome turing_gen false t before (plain ++ bs) (sock_send turing_gen c bs)
  direct plain c bs w e =
      sent_rule turing_gen (Outcome turing_gen false t before (plain ++ bs)) c bs
        (sock_send turing_gen c bs) (sock_send-IsSent turing_gen c bs w.connected)
        (λ sends. raw plain c bs sends w e)
        (λ first rest sends parts.
          cut plain c bs first rest sends (raw plain c bs sends w e) parts e)

  nothing_waits :
      (plain : List ℕ) (c : PConn G)
      → IsWritten turing_gen false t before plain c
      → c.sbuff ≡ []
      → IsWritten turing_gen false t before plain (record c { sbuff = [] })
  nothing_waits plain c w e = record {
    out = w.out;
    parts = w.parts ∙ ap (λ x. w.out ++ x) e;
    wire = w.wire;
    key = w.key;
    small = omega arith;
    connected = w.connected;
    mode = w.mode;
  }

  buffer-IsCut :
      (plain : List ℕ) (c : PConn G) (first rest sends : List ℕ)
      → IsWritten turing_gen false t before plain c
      → c.sbuff ≡ first ++ rest
      → IsCut turing_gen false t before plain (record c { sent = c.sent ++ first; sends = sends })
  buffer-IsCut plain c first rest sends w parts = (
    rest,
    sym (code_out turing_gen false t before plain c w).0
        ∙ ap (λ x. c.sent ++ x) parts
        ∙ sym (append_assoc c.sent first rest),
  )

  send_long-Outcome :
      (plain : List ℕ) (c : PConn G) (buff : ℕ → ℕ) (len : ℕ)
      → IsWritten turing_gen false t before plain c
      → Outcome turing_gen false t before
          (plain ++ bytes buff (length c.sbuff) len)
          (send_long turing_gen c buff len)
  unfolding send_long
  send_long-Outcome plain c buff len w =
      let bs = bytes buff (length c.sbuff) len in
      if_rule (Outcome turing_gen false t before (plain ++ bs)) (ltb 0 (length c.sbuff)) _ _
        (λ _.
          sent_then turing_gen (Outcome turing_gen false t before (plain ++ bs)) c c.sbuff
            (sock_send turing_gen c c.sbuff) _ (sock_send-IsSent turing_gen c c.sbuff w.connected)
            (λ sends.
              direct plain (record c { sent = c.sent ++ c.sbuff; sends = sends; sbuff = [] }) bs
                (emptied turing_gen false t before plain c sends w) refl)
            (λ first rest sends parts.
              longer turing_gen false t before plain bs
                (record c { sent = c.sent ++ first; sends = sends })
                (buffer-IsCut plain c first rest sends w parts)))
        (λ e.
          let none_waits : length c.sbuff ≡ 0 = ground (arith, e) in
          subst
            (λ n.
              Outcome turing_gen false t before (plain ++ bytes buff n len)
                (sock_send turing_gen (record c { sbuff = [] }) (bytes buff 0 len)))
            (sym none_waits)
            (direct plain (record c { sbuff = [] }) (bytes buff 0 len)
              (nothing_waits plain c w (no_bytes turing_gen c.sbuff none_waits)) refl))

module _ {G : Type 0} (turing_gen : G → (ℕ → ℕ) × G) (t : Turing G) (before : List ℕ) where
  never_long : (b e : Bool) → e ≡ true → (b && not e) ≡ true → ⊥
  never_long b false h k = cc
  never_long true true h k = cc
  never_long false true h k = cc

  -- `sendData` appends `len` bytes of the caller's memory to what was written to the connection,
  -- whether they go through the buffer or around it, in any number of calls of `send`, and if the
  -- socket fails the wire has the start of the coded bytes. The bytes are those from the start of
  -- the data, but in the branch for long data that is not encrypted they are those from as far
  -- behind the start as bytes were waiting in the buffer.
  pub send_data-Outcome :
      (b : Bool) (plain : List ℕ) (c : PConn G) (buff : ℕ → ℕ) (len : ℕ)
      → IsWritten turing_gen b t before plain c
      → Outcome turing_gen b t before
          (plain ++ bytes buff (skipped c len) len)
          (send_data turing_gen c buff len)
  unfolding send_data
  send_data-Outcome false plain c buff len w = elim (Bool-cases (ltb 2048 len && not c.b_encry)) [
    | inl e ↦ rw e (send_long-Outcome turing_gen t before plain c buff len w)
    | inr e ↦ rw e (
        send_small-Outcome turing_gen false t before len plain c (bytes buff 0 len)
          (omega (arith, length-bytes buff 0 len)) w)
  ]
  send_data-Outcome true plain c buff len w = elim (Bool-cases (ltb 2048 len && not c.b_encry)) [
    | inl e ↦ absurd (never_long (ltb 2048 len) c.b_encry w.mode e)
    | inr e ↦ rw e (
        send_small-Outcome turing_gen true t before len plain c (bytes buff 0 len)
          (omega (arith, length-bytes buff 0 len)) w)
  ]
