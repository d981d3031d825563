-- ===== src/CPool/Counts.antt =====
-- The numbers that a pool of ksources/kci_cpool.cpp keeps: its connections and the threads that
-- wait.
use nihao_github_io.Base.{
  ℕ, zero, suc, ◌+◌, ◌≤◌, ◌<◌, ◌≡◌, refl, sym, ap, subst, ◌⊎◌, inl, inr, true, false, Option, none,
  some, List, [], ◌∷◌, ◌++◌, length, ltb, ltb→lt, if_rule, arith,
}
use nihao_github_io.Base.Maps.{put, put_same, put_other}
use nihao_github_io.CPool.{
  CPool, Place, away, building, waiting, linking, checking, using, forget, take_idle, reserve,
  from_pool, own_conn, bind_locked, add_conn, give_up, stop_waiting, link_conn, check_scene,
  return_conn, unbind_from, unbind_phy_conn, release_from, release_phy_conn, System, goes, Step,
  starts, built, fails, wakes, links, checks, unbinds, releases, Reach, start, next, same_scene,
  Scene, new_pool,
}

unfoldable pub is_building : Place → ℕ
is_building building = 1
is_building away = 0
is_building waiting = 0
is_building (linking c) = 0
is_building (checking c) = 0
is_building (using c) = 0

unfoldable pub is_waiting : Place → ℕ
is_waiting waiting = 1
is_waiting away = 0
is_waiting building = 0
is_waiting (linking c) = 0
is_waiting (checking c) = 0
is_waiting (using c) = 0

-- The sum over the first `k` threads.
unfoldable pub sum_at : ℕ → (Place → ℕ) → (ℕ → Place) → ℕ
sum_at zero f at = 0
sum_at (suc k) f at = f (at k) + sum_at k f at

sum_above :
    (k s : ℕ) (f : Place → ℕ) (at : ℕ → Place) (w : Place)
    → k ≤ s
    → sum_at k f (put at s w) ≡ sum_at k f at
unfolding sum_at put
sum_above zero s f at w h = refl
sum_above (suc k) s f at w h =
    let rest = sum_above k s f at w (omega arith) in
    let still = ap f (put_other at s k w (omega (arith, h))) in omega (arith, rest, still)

sum_put :
    (k s : ℕ) (f : Place → ℕ) (at : ℕ → Place) (w : Place)
    → s < k
    → sum_at k f (put at s w) + f (at s) ≡ sum_at k f at + f w
unfolding sum_at put
sum_put zero s f at w h = absurd (omega arith)
sum_put (suc k) s f at w h = elim (last_or_less k s h) [
  | inl e ↦
      let rest = sum_above k s f at w (omega (arith, e)) in
      let now = ap f (put_same at s k w (sym e)) in
      let before = ap (λ i. f (at i)) e in omega (arith, rest, now, before)
  | inr lt ↦
      let rest = sum_put k s f at w lt in
      let still = ap f (put_other at s k w (omega (arith, lt))) in omega (arith, rest, still)
]
  where
    last_or_less : (k s : ℕ) → s < suc k → (s ≡ k) ⊎ (s < k)
    last_or_less k s h = omega arith

-- The numbers are those of the connections that are open or being built, and of the threads that
-- wait, and there are at most `conn_max` connections.
pub record IsCounted (k : ℕ) (y : System) : Type 0 where
  pub conns : y.pool.conn_num ≡ length y.pool.phy_conns + sum_at k is_building y.at
  pub bounded : y.pool.conn_num ≤ y.pool.conn_max
  pub waits : y.pool.wait_num ≡ sum_at k is_waiting y.at

-- What a step of a thread from the place `o` to `w` does to the numbers.
record Counts (p q : CPool) (o w : Place) : Type 0 where
  same_max : q.conn_max ≡ p.conn_max
  conns :
      q.conn_num + is_building o + length p.phy_conns
      ≡ p.conn_num + is_building w + length q.phy_conns
  bounded : p.conn_num ≤ p.conn_max → q.conn_num ≤ p.conn_max
  waits : q.wait_num + is_waiting o ≡ p.wait_num + is_waiting w

goes-IsCounted :
    (k : ℕ) (y : System) (s : ℕ) (q : CPool) (w : Place)
    → s < k
    → IsCounted k y
    → Counts y.pool q (y.at s) w
    → IsCounted k (goes y s (q, w))
unfolding goes
goes-IsCounted k y s q w h v c =
    let b = sum_put k s is_building y.at w h in
    let a = sum_put k s is_waiting y.at w h in
    record {
      conns = omega (arith, b, v.conns, c.conns);
      bounded = omega (arith, c.bounded v.bounded, c.same_max);
      waits = omega (arith, a, v.waits, c.waits);
    }

reserve-Counts : (p : CPool) → Counts p (reserve p).0 away (reserve p).1
unfolding reserve is_building is_waiting
reserve-Counts p =
    if_rule (λ (r : CPool × Place). Counts p r.0 away r.1) (ltb p.conn_num p.conn_max)
      (record p { conn_num = p.conn_num + 1 }, building)
      (record p { wait_num = p.wait_num + 1; op_event = false }, waiting)
      (λ h.
        let lt = ltb→lt p.conn_num p.conn_max h in
        record {
          same_max = refl;
          conns = omega arith;
          bounded = λ _. omega (arith, lt);
          waits = omega arith;
        })
      (λ _. record { same_max = refl; conns = omega arith; bounded = λ b. b; waits = omega arith })

-- No number changes.
still :
    (p q : CPool) (o w : Place)
    → q.conn_num ≡ p.conn_num
    → q.conn_max ≡ p.conn_max
    → length q.phy_conns ≡ length p.phy_conns
    → q.wait_num ≡ p.wait_num
    → is_building o ≡ is_building w
    → is_waiting o ≡ is_waiting w
    → Counts p q o w
still p q o w n m l t b a = record {
  same_max = m;
  conns = omega (arith, n, l, b);
  bounded = λ h. omega (arith, n, h);
  waits = omega (arith, t, a);
}

take_idle-Counts :
    (p : CPool) (c : ℕ) (cs : List ℕ) (o : Option ℕ)
    → Counts p (forget (record p { idle_conns = cs }) o) away (linking c)
unfolding forget is_building is_waiting
take_idle-Counts p c cs none = still p _ away (linking c) refl refl refl refl refl refl
take_idle-Counts p c cs (some u) = still p _ away (linking c) refl refl refl refl refl refl

own_conn-Counts : (p : CPool) (o : Option ℕ) → Counts p (own_conn p o).0 away (own_conn p o).1
unfolding own_conn from_pool take_idle is_building is_waiting
own_conn-Counts p none = pool_cases p.idle_conns
  where
    pool_cases : (cs : List ℕ) → Counts p (from_pool p cs).0 away (from_pool p cs).1
    pool_cases [] = reserve-Counts p
    pool_cases (c ∷ cs) = take_idle-Counts p c cs (p.log_conn c)
own_conn-Counts p (some c) = still p _ away (checking c) refl refl refl refl refl refl

sum_has : (k s : ℕ) (f : Place → ℕ) (at : ℕ → Place) → s < k → f (at s) ≤ sum_at k f at
unfolding sum_at
sum_has zero s f at h = absurd (omega arith)
sum_has (suc k) s f at h = elim (last_or_less k s h) [
  | inl e ↦ (let same = ap (λ i. f (at i)) e in omega (arith, same))
  | inr lt ↦ (let rest = sum_has k s f at lt in omega (arith, rest))
]
  where
    last_or_less : (k s : ℕ) → s < suc k → (s ≡ k) ⊎ (s < k)
    last_or_less k s h = omega arith

add_conn-Counts : (p : CPool) (c : ℕ) → Counts p (add_conn p c) building (linking c)
unfolding add_conn is_building is_waiting
add_conn-Counts p c =
    let longer = length_snoc p.phy_conns c in
    record { same_max = refl; conns = omega (arith, longer); bounded = λ h. h; waits = omega arith }
  where
    length_snoc : (xs : List ℕ) (x : ℕ) → length (xs ++ (x ∷ [])) ≡ length xs + 1
    length_snoc [] x = refl
    length_snoc (y ∷ ys) x = let rest = length_snoc ys x in omega (arith, rest)

give_up-Counts : (p : CPool) → 1 ≤ p.conn_num → Counts p (give_up p) building waiting
unfolding give_up is_building is_waiting
give_up-Counts p h = record {
  same_max = refl;
  conns = omega (arith, h);
  bounded = λ b. omega (arith, b);
  waits = omega arith;
}

wake-Counts :
    (p q : CPool) (w : Place)
    → 1 ≤ p.wait_num
    → Counts (stop_waiting p) q away w
    → Counts p q waiting w
unfolding stop_waiting is_building is_waiting
wake-Counts p q w h c = record {
  same_max = c.same_max;
  conns = c.conns;
  bounded = c.bounded;
  waits = omega (arith, h, c.waits);
}

check_scene-Counts : (p : CPool) (s c : ℕ) → Counts p (check_scene p s c) (checking c) (using c)
unfolding check_scene is_building is_waiting
check_scene-Counts p s c =
    if_rule (λ q. Counts p q (checking c) (using c))
      (same_scene (p.conn_scene c) (p.server_scene s))
      (record p { scene_chged = put p.scene_chged c false })
      (record p {
        conn_scene = put p.conn_scene c (p.server_scene s);
        scene_chged = put p.scene_chged c true;
      })
      (λ _. still p _ (checking c) (using c) refl refl refl refl refl refl)
      (λ _. still p _ (checking c) (using c) refl refl refl refl refl refl)

unbind-Counts : (p : CPool) (s c : ℕ) (o : Option ℕ) → Counts p (unbind_from p s o) (using c) away
unfolding unbind_from return_conn is_building is_waiting
unbind-Counts p s c none = still p _ (using c) away refl refl refl refl refl refl
unbind-Counts p s c (some d) = still p _ (using c) away refl refl refl refl refl refl

release-Counts : (p : CPool) (s c : ℕ) (o : Option ℕ) → Counts p (release_from p s o) (using c) away
unfolding release_from return_conn is_building is_waiting
release-Counts p s c none = still p _ (using c) away refl refl refl refl refl refl
release-Counts p s c (some d) = still p _ (using c) away refl refl refl refl refl refl

link-Counts : (p : CPool) (s c : ℕ) → Counts p (link_conn p s c) (linking c) (checking c)
unfolding link_conn is_building is_waiting
link-Counts p s c = still p _ (linking c) (checking c) refl refl refl refl refl refl

-- From the place where a thread stands.
from_place :
    (k : ℕ) (y : System) (s : ℕ) (o w : Place) (q : CPool)
    → s < k
    → y.at s ≡ o
    → IsCounted k y
    → Counts y.pool q o w
    → IsCounted k (goes y s (q, w))
from_place k y s o w q h e v c =
    goes-IsCounted k y s q w h v (subst (λ o. Counts y.pool q o w) (sym e) c)

Step-IsCounted : (k : ℕ) (y z : System) → Step k y z → IsCounted k y → IsCounted k z
unfolding bind_locked unbind_phy_conn release_phy_conn
Step-IsCounted k y _ (starts _ s h e) v =
    from_place k y s away _ _ h e v (own_conn-Counts y.pool (y.pool.phy_conn s))
Step-IsCounted k y _ (built _ s c h e new) v =
    from_place k y s building _ _ h e v (add_conn-Counts y.pool c)
Step-IsCounted k y _ (fails _ s h e) v =
    let some_one = sum_has k s is_building y.at h in
    let one = ap is_building e in
    from_place k y s building _ _ h e v
      (give_up-Counts y.pool (unfold is_building in omega (arith, some_one, one, v.conns)))
Step-IsCounted k y _ (wakes _ s h e) v =
    let some_one = sum_has k s is_waiting y.at h in
    let one = ap is_waiting e in
    from_place k y s waiting _ _ h e v (
      wake-Counts y.pool _ _ (unfold is_waiting in omega (arith, some_one, one, v.waits))
        (own_conn-Counts (stop_waiting y.pool) ((stop_waiting y.pool).phy_conn s)))
Step-IsCounted k y _ (links _ s c h e) v =
    from_place k y s (linking c) _ _ h e v (link-Counts y.pool s c)
Step-IsCounted k y _ (checks _ s c h e) v =
    from_place k y s (checking c) _ _ h e v (check_scene-Counts y.pool s c)
Step-IsCounted k y _ (unbinds _ s c h e) v =
    from_place k y s (using c) _ _ h e v (unbind-Counts y.pool s c (y.pool.phy_conn s))
Step-IsCounted k y _ (releases _ s c h e) v =
    from_place k y s (using c) _ _ h e v (release-Counts y.pool s c (y.pool.phy_conn s))

nobody : (k : ℕ) (f : Place → ℕ) → f away ≡ 0 → sum_at k f (λ s. away) ≡ 0
unfolding sum_at
nobody zero f e = refl
nobody (suc k) f e = let rest = nobody k f e in omega (arith, e, rest)

-- In every order of the steps of `k` threads the pool counts the connections that are open or
-- being built and the threads that wait, and it never has more than `conn_max` connections.
pub Reach-IsCounted :
    (k max : ℕ) (conns servers : ℕ → Scene) (y : System)
    → Reach k (new_pool max conns servers) y
    → IsCounted k y
unfolding new_pool
Reach-IsCounted k max conns servers _ start = record {
  conns =
      let none_yet = nobody k is_building (unfold is_building in refl) in omega (arith, none_yet);
  bounded = omega arith;
  waits = sym (nobody k is_waiting (unfold is_waiting in refl));
}
Reach-IsCounted k max conns servers z (next y _ r s) =
    Step-IsCounted k y z s (Reach-IsCounted k max conns servers y r)
