-- ===== src/BinMem/Blocks.antt =====
-- What the clients of a context have, of ksources/kci_bin_mem.cpp.
use nihao_github_io.Base.{ℕ, ◌+◌, ◌-◌, ◌≤◌, ◌<◌, ◌≡◌, ◌≢◌, false, Option, none, some, arith}
use nihao_github_io.BinMem.{BinMem}
use nihao_github_io.BinMem.Kinds.{Kind, gap, taken, loose, held, big, binned, is_live, is_held}
use nihao_github_io.BinMem.Valid.{IsBin}

-- What the clients have: the size of the block at an address. The header of a block of its own says
-- its mark only, and its heap the size.
unfoldable pub owned_size : Kind → ℕ → ℕ → Option ℕ
owned_size gap n g = none
owned_size taken n g = some n
owned_size loose n g = none
owned_size held n g = none
owned_size big n g = some g
owned_size (binned i) n g = none

unfoldable pub blocks : BinMem → (ℕ → Kind) → ℕ → Option ℕ
unfolding owned_size
blocks m kind a = owned_size (kind a) (m.size a) (m.given (a - 24))

-- Every free chunk is on a list, but those that a call keeps.
pub record IsCalm (m : BinMem) (kind : ℕ → Kind) (home : ℕ → ℕ) : Type 0 where
  pub valid : IsBin m kind home
  pub settled : (a : ℕ) → kind a ≢ loose

-- Between two calls none is kept.
pub record IsIdle (m : BinMem) (kind : ℕ → Kind) (home : ℕ → ℕ) : Type 0 where
  pub valid : IsBin m kind home
  pub settled : (a : ℕ) → kind a ≢ loose
  pub unheld : (a : ℕ) → is_held (kind a) ≡ false

pub IsIdle-IsCalm :
    (m : BinMem) (kind : ℕ → Kind) (home : ℕ → ℕ) → IsIdle m kind home → IsCalm m kind home
IsIdle-IsCalm m kind home v = record { valid = v.valid; settled = v.settled }

-- The blocks that the clients have do not overlap.
pub blocks_apart :
    (m : BinMem) (kind : ℕ → Kind) (home : ℕ → ℕ)
    → IsIdle m kind home
    → (a b n k : ℕ) → blocks m kind a ≡ some n
    → blocks m kind b ≡ some k
    → a < b
    → a + n ≤ b
unfolding blocks owned_size is_live
blocks_apart m kind home v a b n k e f lt = ground (
  arith,
  e,
  f,
  lt,
  v.valid.tiled.apart a b,
  v.valid.housed.big_listed a,
  v.valid.housed.big_listed b,
  v.valid.housed.big_low a,
  v.valid.housed.big_low b,
  v.valid.housed.listed a,
  v.valid.housed.listed b,
  v.valid.housed.low a,
  v.valid.housed.low b,
  v.valid.housed.high a,
  v.valid.housed.high b,
  v.valid.housed.large_apart (home a) (b - 24),
  v.valid.housed.large_apart (home b) (a - 24),
  v.valid.housed.larges_apart (a - 24) (b - 24),
)
