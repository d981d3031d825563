-- ===== src/Sql/Params.antt =====
-- The parameters that the scanner collects, and why it ends.
use nihao_github_io.Base.{ℕ, zero, suc, ◌+◌, ◌≤◌, ◌<◌, ◌≡◌, ◌≢◌, refl, subst, List, [], ◌∷◌, arith}
use native.Mathlib.Decide.{dec_lt}
use nihao_github_io.Sql.{
  Param, success, stuck, Round, move, add, fail, round, Scan, with_param, scan,
}
use nihao_github_io.Sql.Rounds.{IsParam, IsRound, round_lem}

-- One round of the loop, by what the round does.
abbrev onward : (ℕ → ℕ) → ℕ → ℕ → Round → Scan
onward stmt len fuel (move next) = scan stmt len fuel next
onward stmt len fuel (add p next) = with_param p (scan stmt len fuel next)
onward stmt len fuel (fail e) = record { status = e; params = [] }

scan_on :
    (stmt : ℕ → ℕ) (len fuel off : ℕ) (r : Round)
    → off < len
    → round stmt len off ≡ r
    → scan stmt len (suc fuel) off ≡ onward stmt len fuel r
unfolding scan
scan_on stmt len fuel off r h e = ground (arith, e)

scan_off :
    (stmt : ℕ → ℕ) (len fuel off : ℕ)
    → len ≤ off
    → scan stmt len (suc fuel) off ≡ record { status = success; params = [] }
unfolding scan
scan_off stmt len fuel off h = ground arith

-- The parameters of a list lie in the statement from `from` on, one behind the other.
abbrev pub Placed : (ℕ → ℕ) → ℕ → ℕ → List Param → Type 0
Placed stmt len from [] = Unit {0}
Placed stmt len from (p ∷ ps) =
    (from ≤ p.off)
    × (p.off < p.off + p.len)
    × (p.off + p.len ≤ len)
    × IsParam stmt len p
    × Placed stmt len (p.off + p.len) ps

pub Placed-mono :
    (stmt : ℕ → ℕ) (len from to : ℕ) (ps : List Param)
    → from ≤ to
    → Placed stmt len to ps
    → Placed stmt len from ps
Placed-mono stmt len from to [] h v = tt
Placed-mono stmt len from to (p ∷ ps) h v = (omega arith, v.1, v.2, v.3, v.4)

abbrev Result : (ℕ → ℕ) → ℕ → ℕ → Scan → Type 0
Result stmt len off r = Placed stmt len off r.params

onward-Placed :
    (stmt : ℕ → ℕ) (len fuel off : ℕ) (r : Round)
    → ((next : ℕ) → Result stmt len next (scan stmt len fuel next))
    → IsRound stmt len off r
    → Result stmt len off (onward stmt len fuel r)
unfolding with_param
onward-Placed stmt len fuel off (move next) rest h =
    Placed-mono stmt len off next (scan stmt len fuel next).params (omega arith) (rest next)
onward-Placed stmt len fuel off (add p next) rest h =
    let e : next ≡ p.off + p.len = omega arith in
    (
      omega arith,
      omega arith,
      omega arith,
      h.4,
      subst (λ x. Placed stmt len x (scan stmt len fuel next).params) e (rest next),
    )
onward-Placed stmt len fuel off (fail s) rest h = tt

-- Whatever the outcome, the parameters found so far are in place.
pub scan-Placed :
    (stmt : ℕ → ℕ) (len fuel off : ℕ) → Placed stmt len off (scan stmt len fuel off).params
scan-Placed stmt len zero off = unfold scan in tt
scan-Placed stmt len (suc fuel) off = elim (dec_lt off len) [
  | yes h ↦ rw (scan_on stmt len fuel off (round stmt len off) h refl) (
      onward-Placed stmt len fuel off (round stmt len off) (scan-Placed stmt len fuel)
        (round_lem stmt len off h))
  | no h ↦ rw (scan_off stmt len fuel off (omega arith)) tt
]

onward_ends :
    (stmt : ℕ → ℕ) (len fuel off : ℕ) (r : Round)
    → ((next : ℕ) → off < next → (scan stmt len fuel next).status ≢ stuck)
    → IsRound stmt len off r
    → (onward stmt len fuel r).status ≢ stuck
unfolding with_param
onward_ends stmt len fuel off (move next) rest h = rest next h
onward_ends stmt len fuel off (add p next) rest h = rest next h.2
onward_ends stmt len fuel off (fail s) rest h = h

-- With more rounds than bytes left the loop ends by itself.
pub scan_ends :
    (stmt : ℕ → ℕ) (len fuel off : ℕ)
    → 1 ≤ fuel
    → len < off + fuel
    → (scan stmt len fuel off).status ≢ stuck
scan_ends stmt len zero off h k = absurd (omega arith)
scan_ends stmt len (suc fuel) off h k = elim (dec_lt off len) [
  | yes c ↦ rw (scan_on stmt len fuel off (round stmt len off) c refl) (
      onward_ends stmt len fuel off (round stmt len off)
        (λ next lt. scan_ends stmt len fuel next (omega arith) (omega arith))
        (round_lem stmt len off c))
  | no c ↦ rw (scan_off stmt len fuel off (omega arith)) (λ e. cc)
]
