-- ===== src/CPool.antt =====
-- The pool of connections of ksources/kci_cpool.cpp: `bindPhyConn`, `unbindPhyConn` and
-- `releasePhyConn`. Servers and connections are numbers; the pool has the pointers between them.
pub mod Counts
pub mod Holders
pub mod Exclusive
mod Tests
use nihao_github_io.Base.{
  ℕ, zero, suc, ◌+◌, ◌-◌, ◌<◌, ◌≡◌, Bool, true, false, not, ◌&&◌, Option, none, some, List, [], ◌∷◌,
  ◌++◌, ltb, ◌==◌, if◌then◌else◌,
}
use nihao_github_io.Base.Maps.{put}
use nihao_github_io.LinkMem.{has, remove}

-- The database, schema and user that a connection or a server is set to.
pub record Scene : Type 0 where
  pub did : ℕ
  pub sid : ℕ
  pub uid : ℕ

-- `log_conn` is a field of a connection, `phy_conn` one of a server.
pub record CPool : Type 0 where
  pub conn_max : ℕ
  pub conn_num : ℕ
  pub wait_num : ℕ
  pub op_event : Bool
  pub phy_conns : List ℕ
  pub idle_conns : List ℕ
  pub log_conn : ℕ → Option ℕ
  pub phy_conn : ℕ → Option ℕ
  pub conn_scene : ℕ → Scene
  pub server_scene : ℕ → Scene
  pub scene_chged : ℕ → Bool
  pub server_state : ℕ → ℕ

-- Where the thread of a server stands: outside of all calls, in `bindPhyConn` before `buildPhyConn`
-- returns, in `wait_event`, behind `free_mutex` with a connection it has taken or one that is
-- linked, or with the connection that `bindPhyConn` has returned.
pub data Place : Type 0 where
  away building waiting : Place
  linking checking using : ℕ → Place

-- `if (p_conn->log_conn) p_conn->log_conn->phy_conn = NULL;`
unfoldable pub forget : CPool → Option ℕ → CPool
unfolding put
forget p none = p
forget p (some u) = record p { phy_conn = put p.phy_conn u none }

unfoldable pub take_idle : CPool → ℕ → List ℕ → CPool × Place
unfolding forget
take_idle p c cs = (forget (record p { idle_conns = cs }) (p.log_conn c), linking c)

-- Another connection, or a wait.
unfoldable pub reserve : CPool → CPool × Place
reserve p =
    if ltb p.conn_num p.conn_max
    then (record p { conn_num = p.conn_num + 1 }, building)
    else (record p { wait_num = p.wait_num + 1; op_event = false }, waiting)

unfoldable pub from_pool : CPool → List ℕ → CPool × Place
unfolding take_idle reserve
from_pool p [] = reserve p
from_pool p (c ∷ cs) = take_idle p c cs

unfoldable pub own_conn : CPool → Option ℕ → CPool × Place
unfolding from_pool remove
own_conn p none = from_pool p p.idle_conns
own_conn p (some c) = (record p { idle_conns = remove c p.idle_conns }, checking c)

-- From the label `retry` to the next `free_mutex`.
unfoldable pub bind_locked : CPool → ℕ → CPool × Place
unfolding own_conn
bind_locked p s = own_conn p (p.phy_conn s)

-- `buildPhyConn` succeeded: the new connection is added.
unfoldable pub add_conn : CPool → ℕ → CPool
add_conn p c = record p { phy_conns = p.phy_conns ++ (c ∷ []) }

-- It failed.
unfoldable pub give_up : CPool → CPool
give_up p = record p { conn_num = p.conn_num - 1; wait_num = p.wait_num + 1 }

-- Behind `wait_event`.
unfoldable pub stop_waiting : CPool → CPool
stop_waiting p = record p { wait_num = p.wait_num - 1 }

-- `p_conn->log_conn = p_server; p_server->phy_conn = p_conn;`
unfoldable pub link_conn : CPool → ℕ → ℕ → CPool
unfolding put
link_conn p s c = record p {
  log_conn = put p.log_conn c (some s);
  phy_conn = put p.phy_conn s (some c);
}

unfoldable pub same_scene : Scene → Scene → Bool
same_scene a b = (a.did == b.did) && ((a.sid == b.sid) && (a.uid == b.uid))

-- The end of `bindPhyConn`.
unfoldable pub check_scene : CPool → ℕ → ℕ → CPool
unfolding put same_scene
check_scene p s c =
    if same_scene (p.conn_scene c) (p.server_scene s)
    then record p { scene_chged = put p.scene_chged c false }
    else record p {
      conn_scene = put p.conn_scene c (p.server_scene s);
      scene_chged = put p.scene_chged c true;
    }

-- `ListAdd(p_pool->idle_conns, …); if (p_pool->waitNum) set_event(p_pool->op_event);`
unfoldable pub return_conn : CPool → ℕ → CPool
return_conn p c = record p {
  idle_conns = p.idle_conns ++ (c ∷ []);
  op_event = if p.wait_num == 0 then p.op_event else true;
}

unfoldable pub unbind_from : CPool → ℕ → Option ℕ → CPool
unfolding return_conn put
unbind_from p s none = p
unbind_from p s (some c) = return_conn (record p { server_state = put p.server_state s 2 }) c

unfoldable pub unbind_phy_conn : CPool → ℕ → CPool
unfolding unbind_from
unbind_phy_conn p s = unbind_from p s (p.phy_conn s)

unfoldable pub release_from : CPool → ℕ → Option ℕ → CPool
unfolding return_conn put
release_from p s none = record p { server_state = put p.server_state s 0 }
release_from p s (some c) =
    record (return_conn
      (record p { log_conn = put p.log_conn c none; phy_conn = put p.phy_conn s none }) c) {
        server_state = put p.server_state s 0;
      }

unfoldable pub release_phy_conn : CPool → ℕ → CPool
unfolding release_from
release_phy_conn p s = release_from p s (p.phy_conn s)

-- The pool with the threads of its servers.
pub record System : Type 0 where
  pub pool : CPool
  pub at : ℕ → Place

unfoldable pub goes : System → ℕ → CPool × Place → System
unfolding put
goes y s (p, w) = record { pool = p; at = put y.at s w }

-- The steps of `k` threads, one for each server. What a thread of `bindPhyConn` does between two
-- places where the lock is taken or freed is one step. A server calls `unbindPhyConn` or
-- `releasePhyConn` when it has a connection; a call is one step, as what it writes outside of the
-- lock belongs to its caller. `buildPhyConn` gives any connection that the pool does not have or
-- fails, and `wait_event` may return at any time.
pub data Step (k : ℕ) : System → System → Type 0 where
  starts : (y : System) (s : ℕ) → s < k → y.at s ≡ away → Step k y (goes y s (bind_locked y.pool s))
  built :
      (y : System) (s c : ℕ)
      → s < k
      → y.at s ≡ building
      → has c y.pool.phy_conns ≡ false
      → Step k y (goes y s (add_conn y.pool c, linking c))
  fails :
      (y : System) (s : ℕ)
      → s < k
      → y.at s ≡ building
      → Step k y (goes y s (give_up y.pool, waiting))
  wakes :
      (y : System) (s : ℕ)
      → s < k
      → y.at s ≡ waiting
      → Step k y (goes y s (bind_locked (stop_waiting y.pool) s))
  links :
      (y : System) (s c : ℕ)
      → s < k
      → y.at s ≡ linking c
      → Step k y (goes y s (link_conn y.pool s c, checking c))
  checks :
      (y : System) (s c : ℕ)
      → s < k
      → y.at s ≡ checking c
      → Step k y (goes y s (check_scene y.pool s c, using c))
  unbinds :
      (y : System) (s c : ℕ)
      → s < k
      → y.at s ≡ using c
      → Step k y (goes y s (unbind_phy_conn y.pool s, away))
  releases :
      (y : System) (s c : ℕ)
      → s < k
      → y.at s ≡ using c
      → Step k y (goes y s (release_phy_conn y.pool s, away))

-- A pool that is created with no connections, before any server has called it.
unfoldable pub new_pool : ℕ → (ℕ → Scene) → (ℕ → Scene) → CPool
new_pool max conns servers = record {
  conn_max = max;
  conn_num = 0;
  wait_num = 0;
  op_event = false;
  phy_conns = [];
  idle_conns = [];
  log_conn = λ c. none;
  phy_conn = λ s. none;
  conn_scene = conns;
  server_scene = servers;
  scene_chged = λ c. false;
  server_state = λ s. 0;
}

pub data Reach (k : ℕ) (first : CPool) : System → Type 0 where
  start : Reach k first (record { pool = first; at = λ s. away })
  next : (y z : System) → Reach k first y → Step k y z → Reach k first z
