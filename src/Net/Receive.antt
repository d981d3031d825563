-- ===== src/Net/Receive.antt =====
-- What the reading calls take off the wire.
use nihao_github_io.Base.{
  ℕ, ◌-◌, ◌≤◌, ◌≡◌, refl, ◌∙◌, sym, ap, subst, Bool, true, false, List, [], ◌∷◌, ◌++◌, length, take,
  drop, take-append-drop, length-append, length-take, append_assoc, if_rule, ◌==◌, leb, leb→le,
  arith,
}
use nihao_github_io.Net.{
  PConn, Reading, got, broken, recv, arrived, read_buffer, refill, read_small,
}
use nihao_github_io.Net.Stream.{code, code_append}

drop_prefix : (xs ys : List ℕ) → drop (length xs) (xs ++ ys) ≡ ys
drop_prefix [] ys = refl
drop_prefix (x ∷ xs) ys = drop_prefix xs ys

-- The bytes of one call of `recv` come first of those that arrive.
pub recv_parts :
    (n k : ℕ) (bs : List ℕ) → take n (take k bs) ++ drop (length (take n (take k bs))) bs ≡ bs
recv_parts n k bs =
    let got_bytes = take n (take k bs) in
    let rest = drop n (take k bs) ++ drop k bs in
    let whole : got_bytes ++ rest ≡ bs =
      sym (append_assoc got_bytes (drop n (take k bs)) (drop k bs))
      ∙ ap (λ x. x ++ drop k bs) (take-append-drop n (take k bs))
      ∙ take-append-drop k bs in
    ap (λ x. got_bytes ++ x) (ap (drop (length got_bytes)) (sym whole) ∙ drop_prefix got_bytes rest)
    ∙ whole

module _ {G : Type 0} (turing_gen : G → (ℕ → ℕ) × G) where
  -- What the reader of a connection still gets: the buffer, and what arrives, decoded.
  abbrev pub ahead : PConn G → List ℕ
  ahead c = c.rbuff ++ (code turing_gen c.b_encry c.turing_r c.arriving).0

  -- A read that ends behind `done` has the next `len` bytes, and leaves the others.
  abbrev pub IsRead : List ℕ → List ℕ → ℕ → Reading G → Type 0
  IsRead plain done len (got bs d) =
      (more : List ℕ) × (bs ≡ done ++ more) × (length more ≡ len) × (plain ≡ more ++ ahead d)
  IsRead plain done len (broken d) = Unit {0}

  read_buffer-IsRead :
      (recvs : List ℕ) (c : PConn G) (done : List ℕ) (len : ℕ)
      → len ≤ length c.rbuff
      → IsRead (ahead c) done len (read_buffer recvs c done len)
  unfolding read_buffer
  read_buffer-IsRead recvs c done len h =
      let later = (code turing_gen c.b_encry c.turing_r c.arriving).0 in
      (
        take len c.rbuff,
        refl,
        omega (arith, length-take len c.rbuff),
        ap (λ x. x ++ later) (sym (take-append-drop len c.rbuff))
            ∙ append_assoc (take len c.rbuff) (drop len c.rbuff) later,
      )

  pub refill_lem :
      (b : Bool) (c : PConn G) (bs : List ℕ)
      → c.b_encry ≡ b
      → refill turing_gen c bs ≡ record c {
        rbuff = (code turing_gen b c.turing_r bs).0;
        turing_r = (code turing_gen b c.turing_r bs).1;
      }
  unfolding refill
  refill_lem true c bs e = rw e refl
  refill_lem false c bs e = rw e refl

  refill-ahead :
      (c : PConn G) (n k : ℕ)
      → (code turing_gen c.b_encry c.turing_r c.arriving).0
        ≡ ahead (refill turing_gen (arrived c (recv c n k)) (recv c n k))
  unfolding recv arrived
  refill-ahead c n k =
      let bs = take n (take k c.arriving) in
      let rest = drop (length bs) c.arriving in
      ap (λ x. (code turing_gen c.b_encry c.turing_r x).0) (sym (recv_parts n k c.arriving))
      ∙ ap (λ r. r.0) (code_append turing_gen c.b_encry c.turing_r bs rest)
      ∙ ap ahead (sym (refill_lem c.b_encry (record c { arriving = rest }) bs refl))

  -- A round of reading: what was in the buffer and then the rest.
  pub after_buffer :
      (front rest : List ℕ) (done : List ℕ) (len : ℕ) (r : Reading G)
      → length front ≤ len
      → IsRead rest (done ++ front) (len - length front) r
      → IsRead (front ++ rest) done len r
  after_buffer front rest done len (got bs d) h (more, all, size, left) = (
    front ++ more,
    all ∙ append_assoc done front more,
    omega (arith, length-append front more, size),
    ap (λ x. front ++ x) left ∙ sym (append_assoc front more (ahead d)),
  )
  after_buffer front rest done len (broken d) h v = tt

  pub read_small-IsRead :
      (recvs : List ℕ) (c : PConn G) (done : List ℕ) (len : ℕ)
      → IsRead (ahead c) done len (read_small turing_gen recvs c done len)
  unfolding read_small
  read_small-IsRead [] c done len =
      if_rule (IsRead (ahead c) done len) (leb len (length c.rbuff)) _ _
        (λ e. read_buffer-IsRead [] c done len (leb→le len (length c.rbuff) e)) (λ _. tt)
  read_small-IsRead (k ∷ recvs) c done len =
      let bs = recv c 2048 k in
      let next = refill turing_gen (arrived c bs) bs in
      if_rule (IsRead (ahead c) done len) (leb len (length c.rbuff)) _ _
        (λ e. read_buffer-IsRead (k ∷ recvs) c done len (leb→le len (length c.rbuff) e))
        (λ e.
          if_rule (IsRead (ahead c) done len) (length bs == 0) _ _ (λ _. tt)
            (λ _.
              let rest = read_small-IsRead recvs next (done ++ c.rbuff) (len - length c.rbuff) in
              after_buffer c.rbuff _ done len
                (read_small turing_gen recvs next (done ++ c.rbuff) (len - length c.rbuff))
                (ground (arith, e))
                (subst
                  (λ x.
                    IsRead x (done ++ c.rbuff) (len - length c.rbuff)
                      (read_small turing_gen recvs next (done ++ c.rbuff) (len - length c.rbuff)))
                  (sym (refill-ahead c 2048 k)) rest)))
