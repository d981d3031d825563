-- ===== src/Net/Data.antt =====
-- `sendData`, on both its branches.
use nihao_github_io.Base.{
  ℕ, zero, suc, ◌+◌, ◌-◌, ◌≤◌, ◌<◌, ◌∙◌, sym, ap, subst, Bool, List, [], ◌∷◌, ◌++◌, length, take,
  drop, take-append-drop, length-append, length-take, length-drop, append-nil, append_assoc,
  if_rule, ◌==◌, arith,
}
use nihao_github_io.Net.{
  Turing, PConn, Result, ok, io_error, stuck, and_then, make_room, send_small,
}
use nihao_github_io.Net.Stream.{code, code_append}
use nihao_github_io.Net.Send.{IsWritten, IsCut, Outcome, Flushed, transmit-Flushed}

module _ {G : Type 0} (turing_gen : G → (ℕ → ℕ) × G) (b : Bool) (t : Turing G)
    (before : List ℕ) where
  Written : List ℕ → PConn G → Type 0
  Written plain c = IsWritten turing_gen b t before plain c

  -- A connection with room in its buffer.
  abbrev Roomy : List ℕ → Result (PConn G) → Type 0
  Roomy plain (ok d) = IsWritten turing_gen b t before plain d × (length d.sbuff < 2048)
  Roomy plain (io_error d) = IsCut turing_gen b t before plain d
  Roomy plain stuck = ⊥

  Flushed-Roomy :
      (plain : List ℕ) (r : Result (PConn G))
      → Flushed turing_gen b t before plain r
      → Roomy plain r
  Flushed-Roomy plain (ok d) (w, e) = (w, rw e (omega arith))
  Flushed-Roomy plain (io_error d) h = h
  Flushed-Roomy plain stuck h = h

  make_room-Roomy :
      (plain : List ℕ) (c : PConn G)
      → IsWritten turing_gen b t before plain c
      → Roomy plain (make_room turing_gen c)
  unfolding make_room
  make_room-Roomy plain c w =
      if_rule (Roomy plain) (2048 - length c.sbuff == 0) _ _
        (λ _. Flushed-Roomy plain _ (transmit-Flushed turing_gen b t before plain c w))
        (λ e. (w, ground (arith, e)))

  room_then :
      (P : Result (PConn G) → Type 0) (plain : List ℕ) (r : Result (PConn G))
      (f : PConn G → Result (PConn G))
      → Roomy plain r
      → ((d : PConn G) → IsWritten turing_gen b t before plain d → length d.sbuff < 2048 → P (f d))
      → ((d : PConn G) → IsCut turing_gen b t before plain d → P (io_error d))
      → P (and_then r f)
  unfolding and_then
  room_then P plain (ok d) f h good bad = good d h.0 h.1
  room_then P plain (io_error d) f h good bad = bad d h
  room_then P plain stuck f h good bad = absurd h

  put :
      (plain : List ℕ) (c : PConn G) (bs : List ℕ)
      → IsWritten turing_gen b t before plain c
      → length c.sbuff + length bs ≤ 2048
      → IsWritten turing_gen b t before (plain ++ bs) (record c { sbuff = c.sbuff ++ bs })
  put plain c bs w h = record {
    out = w.out;
    parts = ap (λ x. x ++ bs) w.parts ∙ append_assoc w.out c.sbuff bs;
    wire = w.wire;
    key = w.key;
    small = omega (arith, length-append c.sbuff bs);
    connected = w.connected;
    mode = w.mode;
  }

  pub longer :
      (plain bs : List ℕ) (d : PConn G)
      → IsCut turing_gen b t before plain d
      → IsCut turing_gen b t before (plain ++ bs) d
  longer plain bs d (rest, e) =
      let more = (code turing_gen b (code turing_gen b t plain).1 bs).0 in
      (
        rest ++ more,
        ap (λ r. before ++ r.0) (code_append turing_gen b t plain bs)
            ∙ sym (append_assoc before (code turing_gen b t plain).0 more)
            ∙ ap (λ x. x ++ more) e
            ∙ append_assoc d.sent rest more,
      )

  pub send_small-Outcome :
      (fuel : ℕ) (plain : List ℕ) (c : PConn G) (bs : List ℕ)
      → length bs ≤ fuel
      → IsWritten turing_gen b t before plain c
      → Outcome turing_gen b t before (plain ++ bs) (send_small turing_gen fuel c bs)
  unfolding send_small
  send_small-Outcome fuel plain c [] h w =
      subst (λ x. IsWritten turing_gen b t before x c) (sym (append-nil plain)) w
  send_small-Outcome zero plain c (x ∷ bs) h w = absurd (omega arith)
  send_small-Outcome (suc fuel) plain c (x ∷ bs) h w =
      room_then (Outcome turing_gen b t before (plain ++ (x ∷ bs))) plain (make_room turing_gen c) _
        (make_room-Roomy plain c w)
        (λ d v room.
          let m = 2048 - length d.sbuff in
          let first = take m (x ∷ bs) in
          let rest = drop m (x ∷ bs) in
          let whole =
            append_assoc plain first rest ∙ ap (λ y. plain ++ y) (take-append-drop m (x ∷ bs)) in
          subst
            (λ y.
              Outcome turing_gen b t before y
                (send_small turing_gen fuel (record d { sbuff = d.sbuff ++ first }) rest))
            whole
            (send_small-Outcome fuel (plain ++ first) (record d { sbuff = d.sbuff ++ first }) rest
              (omega (arith, length-drop m (x ∷ bs), h))
              (put plain d first v (omega (arith, length-take m (x ∷ bs))))))
        (λ d. longer plain (x ∷ bs) d)
