-- ===== src/Net/Send.antt =====
-- What the sending calls do to the bytes on the wire.
use nihao_github_io.Base.{
  ℕ, ◌≤◌, ◌≡◌, refl, ◌∙◌, sym, ap, subst, Bool, true, false, List, [], ◌∷◌, ◌++◌, length, take,
  drop, take-append-drop, append-nil, append_assoc, if_rule, ==_iff, ◌==◌, arith,
}
use nihao_github_io.Net.{
  Turing, PConn, Result, ok, io_error, stuck, and_then, send_loop, sock_send, encrypt_sbuff,
  transmit, net_flush,
}
use nihao_github_io.Net.Stream.{code, code_append}

-- A call of `sockSend` sends all bytes, or fails with the first of them sent.
abbrev pub IsSent : {G : Type 0} → PConn G → List ℕ → Result (PConn G) → Type 0
IsSent c bs (ok d) = d ≡ record c { sent = c.sent ++ bs; sends = d.sends }
IsSent c bs (io_error d) =
    (first : List ℕ) × (rest : List ℕ) × (bs ≡ first ++ rest)
    × (d ≡ record c { sent = c.sent ++ first; sends = d.sends })
IsSent c bs stuck = ⊥

module _ {G : Type 0} (turing_gen : G → (ℕ → ℕ) × G) where
  IsSent-later :
      (c : PConn G) (n : ℕ) (bs : List ℕ) (r : Result (PConn G))
      → IsSent (record c { sent = c.sent ++ take n bs }) (drop n bs) r
      → IsSent c bs r
  IsSent-later c n bs (ok d) h =
      h
      ∙ ap (λ s. record c { sent = s; sends = d.sends })
          (append_assoc c.sent (take n bs) (drop n bs)
            ∙ ap (λ x. c.sent ++ x) (take-append-drop n bs))
  IsSent-later c n bs (io_error d) (first, rest, parts, e) = (
    take n bs ++ first,
    rest,
    sym (take-append-drop n bs)
        ∙ ap (λ x. take n bs ++ x) parts
        ∙ sym (append_assoc (take n bs) first rest),
    e ∙ ap (λ s. record c { sent = s; sends = d.sends }) (append_assoc c.sent (take n bs) first),
  )
  IsSent-later c n bs stuck h = h

  send_loop-IsSent :
      (c : PConn G) (sends bs : List ℕ) → IsSent c bs (send_loop turing_gen c sends bs)
  unfolding send_loop
  send_loop-IsSent c sends [] =
      ap (λ s. record c { sent = s; sends = sends }) (sym (append-nil c.sent))
  send_loop-IsSent c [] (b ∷ bs) =
      ([], b ∷ bs, refl, ap (λ s. record c { sent = s; sends = [] }) (sym (append-nil c.sent)))
  send_loop-IsSent c (n ∷ sends) (b ∷ bs) =
      if_rule (IsSent c (b ∷ bs)) (n == 0) _ _
        (λ _. (
          [],
          b ∷ bs,
          refl,
          ap (λ s. record c { sent = s; sends = sends }) (sym (append-nil c.sent)),
        ))
        (λ _. IsSent-later c n (b ∷ bs) _ (
          send_loop-IsSent (record c { sent = c.sent ++ take n (b ∷ bs) }) sends (drop n (b ∷ bs))))

  pub sock_send-IsSent :
      (c : PConn G) (bs : List ℕ) → c.srv_sock ≡ true → IsSent c bs (sock_send turing_gen c bs)
  unfolding sock_send
  sock_send-IsSent c bs connected =
      if_rule (IsSent c bs) c.srv_sock _ _ (λ _. send_loop-IsSent c c.sends bs) (λ e. absurd cc)

  -- What holds for both ways that a call of `sockSend` ends holds behind it.
  pub sent_then :
      (P : Result (PConn G) → Type 0) (c : PConn G) (bs : List ℕ) (r : Result (PConn G))
      (f : PConn G → Result (PConn G))
      → IsSent c bs r
      → ((sends : List ℕ) → P (f (record c { sent = c.sent ++ bs; sends = sends })))
      → ((first rest sends : List ℕ)
          → bs ≡ first ++ rest
          → P (io_error (record c { sent = c.sent ++ first; sends = sends })))
      → P (and_then r f)
  unfolding and_then
  sent_then P c bs (ok d) f h good bad = subst (λ x. P (f x)) (sym h) (good d.sends)
  sent_then P c bs (io_error d) f (first, rest, parts, e) good bad =
      subst (λ x. P (io_error x)) (sym e) (bad first rest d.sends parts)
  sent_then P c bs stuck f h good bad = absurd h

  -- The buffer as it goes out.
  encrypt_sbuff_lem :
      (b : Bool) (c : PConn G)
      → c.b_encry ≡ b
      → encrypt_sbuff turing_gen c ≡ record c {
        sbuff = (code turing_gen b c.turing_s c.sbuff).0;
        turing_s = (code turing_gen b c.turing_s c.sbuff).1;
      }
  unfolding encrypt_sbuff
  encrypt_sbuff_lem true c e = rw e refl
  encrypt_sbuff_lem false c e = rw e refl

  pub sent_rule :
      (P : Result (PConn G) → Type 0) (c : PConn G) (bs : List ℕ) (r : Result (PConn G))
      → IsSent c bs r
      → ((sends : List ℕ) → P (ok (record c { sent = c.sent ++ bs; sends = sends })))
      → ((first rest sends : List ℕ)
          → bs ≡ first ++ rest
          → P (io_error (record c { sent = c.sent ++ first; sends = sends })))
      → P r
  sent_rule P c bs (ok d) h good bad = subst (λ x. P (ok x)) (sym h) (good d.sends)
  sent_rule P c bs (io_error d) (first, rest, parts, e) good bad =
      subst (λ x. P (io_error x)) (sym e) (bad first rest d.sends parts)
  sent_rule P c bs stuck h good bad = absurd h

  pub no_bytes : (bs : List ℕ) → length bs ≡ 0 → bs ≡ []
  no_bytes [] e = refl
  no_bytes (x ∷ bs) e = absurd (omega (arith, e))

  off_on : (c : PConn G) → c.srv_sock ≡ false → c.srv_sock ≡ true → ⊥
  off_on c e f = cc

  module _ (b : Bool) (t : Turing G) (before : List ℕ) where
    -- A connection to which the bytes `plain` were written since its keys were `t` and the wire
    -- had `before`: the first of them are on the wire, coded, and the others in the buffer.
    pub record IsWritten (plain : List ℕ) (c : PConn G) : Type 0 where
      pub out : List ℕ
      pub parts : plain ≡ out ++ c.sbuff
      pub wire : c.sent ≡ before ++ (code turing_gen b t out).0
      pub key : c.turing_s ≡ (code turing_gen b t out).1
      pub small : length c.sbuff ≤ 2048
      pub connected : c.srv_sock ≡ true
      pub mode : c.b_encry ≡ b

    -- The wire has the start of the coded bytes.
    abbrev pub IsCut : List ℕ → PConn G → Type 0
    IsCut plain d = (rest : List ℕ) × (before ++ (code turing_gen b t plain).0 ≡ d.sent ++ rest)

    abbrev pub Outcome : List ℕ → Result (PConn G) → Type 0
    Outcome plain (ok d) = IsWritten plain d
    Outcome plain (io_error d) = IsCut plain d
    Outcome plain stuck = ⊥

    pub code_out :
        (plain : List ℕ) (c : PConn G)
        → (w : IsWritten plain c)
        → (c.sent ++ (code turing_gen b c.turing_s c.sbuff).0
            ≡ before ++ (code turing_gen b t plain).0)
          × ((code turing_gen b c.turing_s c.sbuff).1 ≡ (code turing_gen b t plain).1)
    code_out plain c w =
        let two = code_append turing_gen b t w.out c.sbuff in
        rw w.parts (rw two (rw w.wire (rw w.key (append_assoc before _ _, refl))))

    -- The buffer, once it is sent.
    pub emptied :
        (plain : List ℕ) (c : PConn G) (sends : List ℕ)
        → IsWritten plain c
        → IsWritten plain (record c {
          turing_s = (code turing_gen b c.turing_s c.sbuff).1;
          sbuff = [];
          sent = c.sent ++ (code turing_gen b c.turing_s c.sbuff).0;
          sends = sends;
        })
    emptied plain c sends w = record {
      out = plain;
      parts = sym (append-nil plain);
      wire = (code_out plain c w).0;
      key = (code_out plain c w).1;
      small = omega arith;
      connected = w.connected;
      mode = w.mode;
    }

    -- Nothing is left in the buffer.
    abbrev pub Flushed : List ℕ → Result (PConn G) → Type 0
    Flushed plain (ok d) = IsWritten plain d × (d.sbuff ≡ [])
    Flushed plain (io_error d) = IsCut plain d
    Flushed plain stuck = ⊥

    pub transmit-Flushed :
        (plain : List ℕ) (c : PConn G) → IsWritten plain c → Flushed plain (transmit turing_gen c)
    unfolding transmit
    transmit-Flushed plain c w =
        let coded = (code turing_gen b c.turing_s c.sbuff).0 in
        let sealed : PConn G = record c {
          turing_s = (code turing_gen b c.turing_s c.sbuff).1;
          sbuff = coded;
        } in
        rw (encrypt_sbuff_lem b c w.mode) (
          sent_then (Flushed plain) sealed coded (sock_send turing_gen sealed coded) _
            (sock_send-IsSent sealed coded w.connected) (λ sends. (emptied plain c sends w, refl))
            (λ first rest sends parts. (
              rest,
              sym (code_out plain c w).0
                  ∙ ap (λ x. c.sent ++ x) parts
                  ∙ sym (append_assoc c.sent first rest),
            )))

    -- `netFlush` on a connection to which `plain` was written leaves nothing in the buffer and all
    -- of `plain`, coded in order with the keys from `t` on, on the wire; if the socket fails, the
    -- wire has the start of that.
    pub net_flush-Flushed :
        (plain : List ℕ) (c : PConn G) → IsWritten plain c → Flushed plain (net_flush turing_gen c)
    unfolding net_flush
    net_flush-Flushed plain c w =
        if_rule (Flushed plain) c.srv_sock _ _
          (λ _.
            if_rule (Flushed plain) (length c.sbuff == 0) _ _
              (λ e. (w, no_bytes c.sbuff ((==_iff (length c.sbuff) 0).0 e)))
              (λ _. transmit-Flushed plain c w))
          (λ e. absurd (off_on c e w.connected))
