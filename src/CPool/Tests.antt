-- ===== src/CPool/Tests.antt =====
-- A run of a pool.
use nihao_github_io.Base.{ℕ, ◌≡◌, refl, arith}
use nihao_github_io.LinkMem.{has}
use nihao_github_io.CPool.{
  CPool, Scene, using, checking, link_conn, check_scene, links, checks, away, waiting, linking,
  System, goes, bind_locked, add_conn, starts, built, Reach, start, next, new_pool,
}
use nihao_github_io.CPool.Exclusive.{IsExclusive, Reach-IsExclusive}
use nihao_github_io.CPool.Counts.{IsCounted, Reach-IsCounted}

abbrev no_scene : ℕ → Scene
no_scene i = record { did = 0; sid = 0; uid = 0 }

-- One connection at most, for two servers.
abbrev small_pool : CPool
unfolding new_pool
small_pool = new_pool 1 no_scene no_scene

abbrev at_rest : System
unfolding small_pool
at_rest = record { pool = small_pool; at = λ s. away }

abbrev first_asks : System
unfolding goes bind_locked at_rest
first_asks = goes at_rest 0 (bind_locked at_rest.pool 0)

abbrev second_waits : System
unfolding first_asks
second_waits = goes first_asks 1 (bind_locked first_asks.pool 1)

abbrev first_has : System
unfolding second_waits add_conn
first_has = goes second_waits 0 (add_conn second_waits.pool 7, linking 7)

second_waits_run : second_waits.at 1 ≡ waiting
unfolding second_waits
second_waits_run = refl

first_has-Reach : Reach 2 (new_pool 1 no_scene no_scene) first_has
unfolding first_has has
first_has-Reach =
    next second_waits first_has
      (next first_asks second_waits
        (next at_rest first_asks start (starts at_rest 0 (omega arith) refl))
        (starts first_asks 1 (omega arith) refl))
      (built second_waits 0 7 (omega arith) refl refl)

Reach-IsCounted_example : IsCounted 2 first_has
Reach-IsCounted_example = Reach-IsCounted 2 1 no_scene no_scene first_has first_has-Reach

abbrev first_linked : System
unfolding first_has link_conn
first_linked = goes first_has 0 (link_conn first_has.pool 0 7, checking 7)

abbrev first_uses : System
unfolding first_linked check_scene
first_uses = goes first_linked 0 (check_scene first_linked.pool 0 7, using 7)

first_uses-Reach : Reach 2 (new_pool 1 no_scene no_scene) first_uses
unfolding first_uses
first_uses-Reach =
    next first_linked first_uses
      (next first_has first_linked first_has-Reach (links first_has 0 7 (omega arith) refl))
      (checks first_linked 0 7 (omega arith) refl)

Reach-IsExclusive_example : IsExclusive first_uses
Reach-IsExclusive_example = Reach-IsExclusive 2 1 no_scene no_scene first_uses first_uses-Reach
