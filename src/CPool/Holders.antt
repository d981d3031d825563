-- ===== src/CPool/Holders.antt =====
-- Who holds the connections of a pool of ksources/kci_cpool.cpp.
use nihao_github_io.Base.{
  ℕ, ◌+◌, ◌≤◌, ◌≡◌, refl, ◌⊎◌, Bool, true, false, ◌||◌, Option, none, some, List, [], ◌∷◌, ◌++◌,
  ◌==◌, if◌then◌else◌, arith,
}
use nihao_github_io.LinkMem.{has, remove}
use nihao_github_io.LinkMem.Times.{times_in, times_remove, times_snoc}
use nihao_github_io.Base.Maps.{put}
use nihao_github_io.CPool.{Place, away, building, waiting, linking, checking, using}

-- The connection that a thread has taken, and that its server points to.
unfoldable pub held : Place → Option ℕ
held away = none
held building = none
held waiting = none
held (linking c) = some c
held (checking c) = some c
held (using c) = some c

unfoldable pub bound : Place → Option ℕ
bound away = none
bound building = none
bound waiting = none
bound (linking c) = none
bound (checking c) = some c
bound (using c) = some c

-- In the middle of `bindPhyConn` a server points to no connection.
unfoldable pub unlinked : Place → Bool
unlinked away = false
unlinked building = true
unlinked waiting = true
unlinked (linking c) = true
unlinked (checking c) = false
unlinked (using c) = false

-- The lists of a pool, the pointers `log_conn` and `phy_conn`, and the places of the threads.
pub record IsHeld (idle phy : List ℕ) (log conn : ℕ → Option ℕ) (at : ℕ → Place) : Type 0 where
  pub once : (c : ℕ) → times_in c idle ≤ 1
  pub idle_known : (c : ℕ) → 1 ≤ times_in c idle → has c phy ≡ true
  pub held_known : (s c : ℕ) → held (at s) ≡ some c → has c phy ≡ true
  pub linked_known : (s c : ℕ) → conn s ≡ some c → has c phy ≡ true
  pub busy : (s c : ℕ) → held (at s) ≡ some c → times_in c idle ≡ 0
  pub apart : (s t c : ℕ) → held (at s) ≡ some c → held (at t) ≡ some c → s ≡ t
  pub back : (s c : ℕ) → conn s ≡ some c → log c ≡ some s
  pub forth : (s c : ℕ) → 1 ≤ times_in c idle → log c ≡ some s → conn s ≡ some c
  pub own : (s c : ℕ) → conn s ≡ some c → (1 ≤ times_in c idle) ⊎ (bound (at s) ≡ some c)
  pub bound_own : (s c : ℕ) → bound (at s) ≡ some c → conn s ≡ some c
  pub free : (s : ℕ) → unlinked (at s) ≡ true → conn s ≡ none

bound-held : (w : Place) (c : ℕ) → bound w ≡ some c → held w ≡ some c
unfolding bound held
bound-held away c e = cc
bound-held building c e = cc
bound-held waiting c e = cc
bound-held (linking d) c e = cc
bound-held (checking d) c e = e
bound-held (using d) c e = e

pub none-bound : (w : Place) → held w ≡ none → bound w ≡ none
unfolding held bound
none-bound away e = refl
none-bound building e = refl
none-bound waiting e = refl
none-bound (linking d) e = refl
none-bound (checking d) e = cc
none-bound (using d) e = cc

has_snoc : (c d : ℕ) (xs : List ℕ) → has d (xs ++ (c ∷ [])) ≡ (has d xs || (d == c))
unfolding has
has_snoc c d [] = ground arith
has_snoc c d (x ∷ xs) = let rest = has_snoc c d xs in ground (arith, rest)

module _ (idle phy : List ℕ) (log conn : ℕ → Option ℕ) (at : ℕ → Place) (s : ℕ)
    (v : IsHeld idle phy log conn at) where
  -- The thread of `s` holds what it has held.
  pub quiet-IsHeld :
      (w : Place)
      → held w ≡ held (at s)
      → bound w ≡ bound (at s)
      → (unlinked w ≡ true → conn s ≡ none)
      → IsHeld idle phy log conn (put at s w)
  unfolding put
  quiet-IsHeld w h b f = record {
    once = v.once;
    idle_known = v.idle_known;
    held_known = λ u d a. ground (arith, h, a, v.held_known u d, v.held_known s d);
    linked_known = v.linked_known;
    busy = λ u d a. ground (arith, h, a, v.busy u d, v.busy s d);
    apart = λ u t d a1 a2. ground (arith, h, a1, a2, v.apart u t d, v.apart s t d, v.apart u s d);
    back = v.back;
    forth = v.forth;
    own = λ u d a. ground (arith, b, a, v.own u d, v.own s d);
    bound_own = λ u d a. ground (arith, b, a, v.bound_own u d, v.bound_own s d);
    free = λ u a. ground (arith, f, a, v.free u);
  }

  -- It takes the connection that its server points to.
  pub own-IsHeld :
      (c : ℕ)
      → held (at s) ≡ none
      → conn s ≡ some c
      → IsHeld (remove c idle) phy log conn (put at s (checking c))
  unfolding put held bound unlinked
  own-IsHeld c h e =
      let idle_c : 1 ≤ times_in c idle = ground (arith, h, v.own s c e, bound-held (at s) c) in
      record {
        once = λ d. ground (arith, times_remove c d idle, v.once d);
        idle_known = λ d a. ground (arith, a, times_remove c d idle, v.idle_known d);
        held_known = λ u d a. ground (arith, a, v.held_known u d, v.linked_known s c e);
        linked_known = v.linked_known;
        busy = λ u d a. ground (arith, a, times_remove c d idle, v.busy u d);
        apart =
            λ u t d a1 a2. ground (arith, a1, a2, v.apart u t d, v.busy u d, v.busy t d, idle_c);
        back = v.back;
        forth = λ u d a. ground (arith, a, times_remove c d idle, v.forth u d);
        own =
            λ u d a. ground (arith, a, times_remove c d idle, v.own u d, v.back u d, v.back s c e);
        bound_own = λ u d a. ground (arith, a, e, v.bound_own u d);
        free = λ u a. ground (arith, a, v.free u);
      }

  -- It links the connection that it has taken.
  pub link-IsHeld :
      (c : ℕ)
      → at s ≡ linking c
      → IsHeld idle phy (put log c (some s)) (put conn s (some c)) (put at s (checking c))
  unfolding put held bound unlinked
  link-IsHeld c e = record {
    once = v.once;
    idle_known = v.idle_known;
    held_known = λ u d a. ground (arith, e, a, v.held_known u d, v.held_known s d);
    linked_known = λ u d a. ground (arith, e, a, v.linked_known u d, v.held_known s d);
    busy = λ u d a. ground (arith, e, a, v.busy u d, v.busy s d);
    apart = λ u t d a1 a2. ground (arith, e, a1, a2, v.apart u t d, v.apart s t d, v.apart u s d);
    back = λ u d a.
        ground (arith, e, a, v.back u d, v.own u d, v.apart u s d, v.busy s c, bound-held (at u) d);
    forth = λ u d a1 a2. ground (arith, e, a1, a2, v.forth u d, v.busy s c, v.free s);
    own = λ u d a. ground (arith, e, a, v.own u d);
    bound_own = λ u d a. ground (arith, e, a, v.bound_own u d);
    free = λ u a. ground (arith, e, a, v.free u);
  }

  -- It has built a new connection.
  pub built-IsHeld :
      (c : ℕ)
      → at s ≡ building
      → has c phy ≡ false
      → IsHeld idle (phy ++ (c ∷ [])) log conn (put at s (linking c))
  unfolding put held bound unlinked
  built-IsHeld c e new = record {
    once = v.once;
    idle_known = λ d a. ground (arith, a, has_snoc c d phy, v.idle_known d);
    held_known = λ u d a. ground (arith, a, has_snoc c d phy, v.held_known u d);
    linked_known = λ u d a. ground (arith, a, has_snoc c d phy, v.linked_known u d);
    busy = λ u d a. ground (arith, a, v.busy u d, v.idle_known d, new, v.once d);
    apart = λ u t d a1 a2.
        ground (arith, a1, a2, v.apart u t d, v.held_known u d, v.held_known t d, new);
    back = v.back;
    forth = v.forth;
    own = λ u d a. ground (arith, e, a, v.own u d);
    bound_own = λ u d a. ground (arith, a, v.bound_own u d);
    free = λ u a. ground (arith, e, a, v.free u);
  }

  -- It gives the connection back and keeps the pointer to it.
  pub unbind-IsHeld :
      (c : ℕ) → at s ≡ using c → IsHeld (idle ++ (c ∷ [])) phy log conn (put at s away)
  unfolding put held bound unlinked
  unbind-IsHeld c e =
      let mine : conn s ≡ some c = ground (arith, e, v.bound_own s c) in
      let taken : times_in c idle ≡ 0 = ground (arith, e, v.busy s c) in
      record {
        once = λ d. ground (arith, times_snoc c d idle, v.once d, taken);
        idle_known =
            λ d a. ground (arith, a, times_snoc c d idle, v.idle_known d, mine, v.linked_known s c);
        held_known = λ u d a. ground (arith, a, v.held_known u d);
        linked_known = v.linked_known;
        busy = λ u d a. ground (arith, e, a, times_snoc c d idle, v.busy u d, v.apart u s d);
        apart = λ u t d a1 a2. ground (arith, a1, a2, v.apart u t d);
        back = v.back;
        forth =
            λ u d a1 a2. ground (arith, a1, a2, times_snoc c d idle, v.forth u d, mine, v.back s c);
        own = λ u d a. ground (arith, e, a, times_snoc c d idle, v.own u d, mine);
        bound_own = λ u d a. ground (arith, a, v.bound_own u d);
        free = λ u a. ground (arith, a, v.free u);
      }

  -- It gives the connection back with the pointers.
  pub release-IsHeld :
      (c : ℕ)
      → at s ≡ using c
      → IsHeld (idle ++ (c ∷ [])) phy (put log c none) (put conn s none) (put at s away)
  unfolding put held bound unlinked
  release-IsHeld c e =
      let mine : conn s ≡ some c = ground (arith, e, v.bound_own s c) in
      let taken : times_in c idle ≡ 0 = ground (arith, e, v.busy s c) in
      record {
        once = λ d. ground (arith, times_snoc c d idle, v.once d, taken);
        idle_known =
            λ d a. ground (arith, a, times_snoc c d idle, v.idle_known d, mine, v.linked_known s c);
        held_known = λ u d a. ground (arith, a, v.held_known u d);
        linked_known = λ u d a. ground (arith, a, v.linked_known u d);
        busy = λ u d a. ground (arith, e, a, times_snoc c d idle, v.busy u d, v.apart u s d);
        apart = λ u t d a1 a2. ground (arith, a1, a2, v.apart u t d);
        back = λ u d a. ground (arith, a, v.back u d, mine, v.back s c);
        forth =
            λ u d a1 a2. ground (arith, a1, a2, times_snoc c d idle, v.forth u d, mine, v.back s c);
        own = λ u d a. ground (arith, e, a, times_snoc c d idle, v.own u d, mine);
        bound_own = λ u d a. ground (arith, a, v.bound_own u d);
        free = λ u a. ground (arith, a, v.free u);
      }

-- It takes an idle connection that no server, or another one, points to.
module _ (c : ℕ) (cs phy : List ℕ) (log conn : ℕ → Option ℕ) (at : ℕ → Place) (s : ℕ)
    (v : IsHeld (c ∷ cs) phy log conn at) (clear : conn s ≡ none) (h : held (at s) ≡ none) where
  taken : (d : ℕ) → times_in d (c ∷ cs) ≡ (if d == c then 1 else 0) + times_in d cs
  unfolding times_in
  taken d = refl

  last_one : times_in c cs ≡ 0
  last_one = ground (arith, taken c, v.once c)

  pub take_unknown : log c ≡ none → IsHeld cs phy log conn (put at s (linking c))
  unfolding put held bound unlinked
  take_unknown e = record {
    once = λ d. ground (arith, taken d, v.once d);
    idle_known = λ d a. ground (arith, a, taken d, v.idle_known d);
    held_known = λ u d a. ground (arith, a, taken c, v.held_known u d, v.idle_known c);
    linked_known = v.linked_known;
    busy = λ u d a. ground (arith, a, taken d, last_one, v.busy u d);
    apart = λ u t d a1 a2. ground (arith, a1, a2, taken d, v.apart u t d, v.busy u d, v.busy t d);
    back = v.back;
    forth = λ u d a1 a2. ground (arith, a1, a2, taken d, v.forth u d);
    own = λ u d a. ground (arith, e, a, clear, taken d, v.own u d, v.back u d);
    bound_own = λ u d a. ground (arith, a, v.bound_own u d);
    free = λ u a. ground (arith, a, clear, v.free u);
  }

  pub take_known :
      (o : ℕ) → log c ≡ some o → IsHeld cs phy log (put conn o none) (put at s (linking c))
  unfolding put held bound unlinked
  take_known o e =
      let theirs : conn o ≡ some c = ground (arith, e, taken c, v.forth o c) in
      record {
        once = λ d. ground (arith, taken d, v.once d);
        idle_known = λ d a. ground (arith, a, taken d, v.idle_known d);
        held_known = λ u d a. ground (arith, a, taken c, v.held_known u d, v.idle_known c);
        linked_known = λ u d a. ground (arith, a, v.linked_known u d);
        busy = λ u d a. ground (arith, a, taken d, last_one, v.busy u d);
        apart =
            λ u t d a1 a2. ground (arith, a1, a2, taken d, v.apart u t d, v.busy u d, v.busy t d);
        back = λ u d a. ground (arith, a, v.back u d);
        forth = λ u d a1 a2. ground (arith, a1, a2, taken d, v.forth u d, last_one, theirs);
        own = λ u d a. ground (arith, e, a, clear, taken d, v.own u d, v.back u d);
        bound_own = λ u d a.
            ground
              (arith, a, clear, v.bound_own u d, theirs, v.busy u d, bound-held (at u) d, taken c);
        free = λ u a. ground (arith, a, clear, v.free u);
      }
