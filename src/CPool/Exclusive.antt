-- ===== src/CPool/Exclusive.antt =====
-- In a pool of ksources/kci_cpool.cpp no two servers have one connection.
use nihao_github_io.Base.{
  ℕ, ◌≤◌, ◌≡◌, refl, sym, ap, subst, ◌+◌, ◌∙◌, true, false, Option, none, some, List, [], ◌∷◌, ltb,
  if_rule, arith,
}
use nihao_github_io.LinkMem.{has}
use nihao_github_io.Base.Maps.{put}
use nihao_github_io.CPool.{
  CPool, Scene, Place, away, building, waiting, linking, checking, using, forget, take_idle,
  reserve, from_pool, own_conn, bind_locked, add_conn, give_up, stop_waiting, link_conn, same_scene,
  check_scene, return_conn, unbind_from, unbind_phy_conn, release_from, release_phy_conn, System,
  goes, Step, starts, built, fails, wakes, links, checks, unbinds, releases, Reach, start, next,
  new_pool,
}
use nihao_github_io.CPool.Holders.{
  IsHeld, held, bound, unlinked, quiet-IsHeld, own-IsHeld, link-IsHeld, built-IsHeld, unbind-IsHeld,
  release-IsHeld, take_unknown, take_known, none-bound,
}
use nihao_github_io.LinkMem.Times.{times_in}

abbrev HeldIn : CPool → (ℕ → Place) → Type 0
HeldIn p at = IsHeld p.idle_conns p.phy_conns p.log_conn p.phy_conn at

-- The lock is taken by a thread that has no connection.
module _ (at : ℕ → Place) (s : ℕ) (no_conn : held (at s) ≡ none) where
  abbrev After : CPool × Place → Type 0
  After r = HeldIn r.0 (put at s r.1)

  waits :
      (p : CPool) (w : Place)
      → HeldIn p at
      → p.phy_conn s ≡ none
      → held w ≡ none
      → bound w ≡ none
      → IsHeld p.idle_conns p.phy_conns p.log_conn p.phy_conn (put at s w)
  waits p w v clear h b =
      quiet-IsHeld p.idle_conns p.phy_conns p.log_conn p.phy_conn at s v w (h ∙ sym no_conn)
        (b ∙ sym (none-bound (at s) no_conn)) (λ _. clear)

  reserve-After : (p : CPool) → HeldIn p at → p.phy_conn s ≡ none → After (reserve p)
  unfolding reserve held bound
  reserve-After p v clear =
      if_rule After (ltb p.conn_num p.conn_max) (record p { conn_num = p.conn_num + 1 }, building)
        (record p { wait_num = p.wait_num + 1; op_event = false }, waiting)
        (λ _. waits p building v clear refl refl) (λ _. waits p waiting v clear refl refl)

  take-After :
      (p : CPool) (c : ℕ) (cs : List ℕ) (o : Option ℕ)
      → IsHeld (c ∷ cs) p.phy_conns p.log_conn p.phy_conn at
      → p.phy_conn s ≡ none
      → p.log_conn c ≡ o
      → After (forget (record p { idle_conns = cs }) o, linking c)
  unfolding forget
  take-After p c cs none v clear e =
      take_unknown c cs p.phy_conns p.log_conn p.phy_conn at s v clear no_conn e
  take-After p c cs (some u) v clear e =
      take_known c cs p.phy_conns p.log_conn p.phy_conn at s v clear no_conn u e

  pool-After :
      (p : CPool) (idle : List ℕ)
      → p.idle_conns ≡ idle
      → HeldIn p at
      → p.phy_conn s ≡ none
      → After (from_pool p idle)
  unfolding from_pool take_idle
  pool-After p [] e v clear = reserve-After p v clear
  pool-After p (c ∷ cs) e v clear =
      take-After p c cs (p.log_conn c)
        (subst (λ idle. IsHeld idle p.phy_conns p.log_conn p.phy_conn at) e v) clear refl

  own-After : (p : CPool) (o : Option ℕ) → p.phy_conn s ≡ o → HeldIn p at → After (own_conn p o)
  unfolding own_conn
  own-After p none e v = pool-After p p.idle_conns refl v e
  own-After p (some c) e v =
      own-IsHeld p.idle_conns p.phy_conns p.log_conn p.phy_conn at s v c no_conn e

unbind-HeldIn :
    (p : CPool) (at : ℕ → Place) (s c : ℕ) (o : Option ℕ)
    → HeldIn p at
    → at s ≡ using c
    → o ≡ some c
    → HeldIn (unbind_from p s o) (put at s away)
unfolding unbind_from return_conn
unbind-HeldIn p at s c o v e mine =
    rw mine (unbind-IsHeld p.idle_conns p.phy_conns p.log_conn p.phy_conn at s v c e)

release-HeldIn :
    (p : CPool) (at : ℕ → Place) (s c : ℕ) (o : Option ℕ)
    → HeldIn p at
    → at s ≡ using c
    → o ≡ some c
    → HeldIn (release_from p s o) (put at s away)
unfolding release_from return_conn
release-HeldIn p at s c o v e mine =
    rw mine (release-IsHeld p.idle_conns p.phy_conns p.log_conn p.phy_conn at s v c e)

check-HeldIn :
    (p : CPool) (at : ℕ → Place) (s c : ℕ)
    → HeldIn p at
    → at s ≡ checking c
    → HeldIn (check_scene p s c) (put at s (using c))
unfolding check_scene held bound unlinked
check-HeldIn p at s c v e =
    let same =
      quiet-IsHeld p.idle_conns p.phy_conns p.log_conn p.phy_conn at s v (using c) (sym (ap held e))
        (sym (ap bound e)) (λ f. cc) in
    if_rule (λ q. HeldIn q (put at s (using c))) (same_scene (p.conn_scene c) (p.server_scene s))
      (record p { scene_chged = put p.scene_chged c false })
      (record p {
        conn_scene = put p.conn_scene c (p.server_scene s);
        scene_chged = put p.scene_chged c true;
      })
      (λ _. same) (λ _. same)

fail-HeldIn :
    (p : CPool) (at : ℕ → Place) (s : ℕ)
    → HeldIn p at
    → at s ≡ building
    → HeldIn (give_up p) (put at s waiting)
unfolding give_up held bound unlinked
fail-HeldIn p at s v e =
    quiet-IsHeld p.idle_conns p.phy_conns p.log_conn p.phy_conn at s v waiting (sym (ap held e))
      (sym (ap bound e)) (λ _. v.free s (ap unlinked e))

Step-HeldIn : (k : ℕ) (y z : System) → Step k y z → HeldIn y.pool y.at → HeldIn z.pool z.at
unfolding goes bind_locked add_conn stop_waiting link_conn unbind_phy_conn release_phy_conn held
    bound
Step-HeldIn k y _ (starts _ s h e) v =
    own-After y.at s (ap held e) y.pool (y.pool.phy_conn s) refl v
Step-HeldIn k y _ (built _ s c h e new) v =
    built-IsHeld y.pool.idle_conns y.pool.phy_conns y.pool.log_conn y.pool.phy_conn y.at s v c e new
Step-HeldIn k y _ (fails _ s h e) v = fail-HeldIn y.pool y.at s v e
Step-HeldIn k y _ (wakes _ s h e) v =
    own-After y.at s (ap held e) (stop_waiting y.pool) (y.pool.phy_conn s) refl v
Step-HeldIn k y _ (links _ s c h e) v =
    link-IsHeld y.pool.idle_conns y.pool.phy_conns y.pool.log_conn y.pool.phy_conn y.at s v c e
Step-HeldIn k y _ (checks _ s c h e) v = check-HeldIn y.pool y.at s c v e
Step-HeldIn k y _ (unbinds _ s c h e) v =
    unbind-HeldIn y.pool y.at s c (y.pool.phy_conn s) v e (v.bound_own s c (ap bound e))
Step-HeldIn k y _ (releases _ s c h e) v =
    release-HeldIn y.pool y.at s c (y.pool.phy_conn s) v e (v.bound_own s c (ap bound e))

Reach-HeldIn :
    (k max : ℕ) (conns servers : ℕ → Scene) (y : System)
    → Reach k (new_pool max conns servers) y
    → HeldIn y.pool y.at
unfolding new_pool held bound unlinked times_in
Reach-HeldIn k max conns servers _ start = record {
  once = λ c. omega arith;
  idle_known = λ c h. absurd (omega arith);
  held_known = λ s c e. cc;
  linked_known = λ s c e. cc;
  busy = λ s c e. refl;
  apart = λ s t c e. cc;
  back = λ s c e. cc;
  forth = λ s c h. absurd (omega arith);
  own = λ s c e. cc;
  bound_own = λ s c e. cc;
  free = λ s e. refl;
}
Reach-HeldIn k max conns servers z (next y _ r s) =
    Step-HeldIn k y z s (Reach-HeldIn k max conns servers y r)

-- A server with a connection that `bindPhyConn` has returned.
pub record IsExclusive (y : System) : Type 0 where
  pub server_points : (s c : ℕ) → y.at s ≡ using c → y.pool.phy_conn s ≡ some c
  pub conn_points : (s c : ℕ) → y.at s ≡ using c → y.pool.log_conn c ≡ some s
  pub not_idle : (s c : ℕ) → y.at s ≡ using c → times_in c y.pool.idle_conns ≡ 0
  pub opened : (s c : ℕ) → y.at s ≡ using c → has c y.pool.phy_conns ≡ true
  pub one_server : (s t c : ℕ) → y.at s ≡ using c → y.at t ≡ using c → s ≡ t
  pub idle_once : (c : ℕ) → times_in c y.pool.idle_conns ≤ 1

-- In every order of the steps of the threads, in which a server calls `unbindPhyConn` or
-- `releasePhyConn` once for a connection that `bindPhyConn` has returned to it, and not again
-- before it has called `bindPhyConn`, such a connection is one of the pool's, is not idle, is
-- pointed to by that server and points to it, and no other server has it; and no connection is on
-- the list of the idle ones twice.
pub Reach-IsExclusive :
    (k max : ℕ) (conns servers : ℕ → Scene) (y : System)
    → Reach k (new_pool max conns servers) y
    → IsExclusive y
unfolding held bound
Reach-IsExclusive k max conns servers y r =
    let v = Reach-HeldIn k max conns servers y r in
    record {
      server_points = λ s c e. v.bound_own s c (ap bound e);
      conn_points = λ s c e. v.back s c (v.bound_own s c (ap bound e));
      not_idle = λ s c e. v.busy s c (ap held e);
      opened = λ s c e. v.held_known s c (ap held e);
      one_server = λ s t c e e'. v.apart s t c (ap held e) (ap held e');
      idle_once = v.once;
    }
