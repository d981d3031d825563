-- ===== src/LinkMem.antt =====
-- The linked memory context of ksources/kci_lnk_mem.cpp. A piece is the number that it got when the
-- parent handed it out; `stub` is the list of pieces in its order, and `live` are those that the
-- parent has handed out and not got back. For each call of the parent's `alloc` or `realloc` to
-- come, `grants` has whether it succeeds; a piece that `realloc` gives has a number of its own.
pub mod Lives
pub mod Reset
pub mod Times
mod Tests
use nihao_github_io.Base.{
  ℕ, zero, suc, ◌+◌, Bool, true, false, Option, none, some, List, [], ◌∷◌, ◌++◌, ◌==◌,
  if◌then◌else◌,
}

unfoldable pub has : ℕ → List ℕ → Bool
has p [] = false
has p (q ∷ qs) = if p == q then true else has p qs

unfoldable pub remove : ℕ → List ℕ → List ℕ
remove p [] = []
remove p (q ∷ qs) = if p == q then remove p qs else q ∷ remove p qs

pub record LinkMem : Type 0 where
  pub stub : List ℕ
  pub live : List ℕ
  pub granted : ℕ
  pub grants : List Bool

-- `ListAdd`, at the end of the list, behind a call of the parent that succeeds.
unfoldable pub add_piece : LinkMem → List Bool → Option ℕ × LinkMem
add_piece m grants = (
  some m.granted,
  record {
    stub = m.stub ++ (m.granted ∷ []);
    live = m.granted ∷ m.live;
    granted = m.granted + 1;
    grants = grants;
  },
)

unfoldable pub alloc_from : List Bool → LinkMem → Option ℕ × LinkMem
unfolding add_piece
alloc_from [] m = (none, m)
alloc_from (false ∷ grants) m = (none, record m { grants = grants })
alloc_from (true ∷ grants) m = add_piece m grants

unfoldable pub link_mem_alloc : LinkMem → Option ℕ × LinkMem
unfolding alloc_from
link_mem_alloc m = alloc_from m.grants m

-- `ListRmv`.
unfoldable pub unlink : LinkMem → ℕ → LinkMem
unfolding remove
unlink m p = record m { stub = remove p m.stub }

-- The parent gets a piece back.
unfoldable pub give_back : LinkMem → ℕ → LinkMem
unfolding remove
give_back m p = record m { live = remove p m.live }

-- The piece is taken off the list before the parent is asked, and put back only if that succeeds.
unfoldable pub realloc_from : List Bool → LinkMem → ℕ → Option ℕ × LinkMem
unfolding unlink give_back add_piece
realloc_from [] m p = (none, unlink m p)
realloc_from (false ∷ grants) m p = (none, record (unlink m p) { grants = grants })
realloc_from (true ∷ grants) m p = add_piece (give_back (unlink m p) p) grants

unfoldable pub link_mem_realloc : LinkMem → Option ℕ → Option ℕ × LinkMem
unfolding link_mem_alloc realloc_from
link_mem_realloc m none = link_mem_alloc m
link_mem_realloc m (some p) = realloc_from m.grants m p

unfoldable pub link_mem_free : LinkMem → Option ℕ → LinkMem
unfolding unlink give_back
link_mem_free m none = m
link_mem_free m (some p) = give_back (unlink m p) p

-- `while ((p_pice = stub.next) != &stub) …`
unfoldable pub reset_pieces : List ℕ → LinkMem → LinkMem
unfolding unlink give_back
reset_pieces [] m = m
reset_pieces (p ∷ ps) m = reset_pieces ps (give_back (unlink m p) p)

unfoldable pub reset_link_mem : LinkMem → LinkMem
unfolding reset_pieces
reset_link_mem m = reset_pieces m.stub m

unfoldable pub init_link_mem : List Bool → LinkMem
init_link_mem grants = record { stub = []; live = []; granted = 0; grants = grants }
