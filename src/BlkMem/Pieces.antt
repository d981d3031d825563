-- ===== src/BlkMem/Pieces.antt =====
-- What a block memory context hands out is apart and within its blocks.
use nihao_github_io.Base.{
  ℕ, ◌+◌, ◌%◌, ◌≤◌, ◌<◌, ◌≡◌, ◌≢◌, sym, ◌⊎◌, inl, inr, Bool, Option, none, some, List, [], ◌∷◌,
  arith,
}
use native.Mathlib.Decide.{ℕ_discrete}
use nihao_github_io.BlkMem.{MemBlk, BlkMem, Piece, carve}

-- A block of a size, `mem0` or one from the parent.
abbrev Linked : List MemBlk → ℕ → ℕ → Type 0
Linked [] block size = ⊥
Linked (b ∷ bs) block size = ((b.block ≡ block) × (b.size ≡ size)) ⊎ Linked bs block size

abbrev pub Has : BlkMem → ℕ → ℕ → Type 0
Has m block size = ((block ≡ 0) × (size ≡ 4096)) ⊎ Linked m.mem_blks block size

abbrev pub Apart : Piece → Piece → Type 0
Apart p q = (p.block ≢ q.block) ⊎ ((p.place + p.size ≤ q.place) ⊎ (q.place + q.size ≤ p.place))

-- A piece lies in a block of the context, and below the free part of the current area.
pub record IsPiece (m : BlkMem) (p : Piece) : Type 0 where
  pub size : ℕ
  pub inside : Has m p.block size
  pub fits : p.place + p.size ≤ size
  pub old : p.block < m.granted
  pub aligned : p.place % 8 ≡ 0
  pub below : p.block ≡ m.buff → p.place + p.size ≤ m.start + m.off

abbrev pub AllPieces : BlkMem → List Piece → Type 0
AllPieces m [] = Unit {0}
AllPieces m (p ∷ ps) = IsPiece m p × AllPieces m ps

abbrev pub ApartFrom : Piece → List Piece → Type 0
ApartFrom p [] = Unit {0}
ApartFrom p (q ∷ qs) = Apart p q × ApartFrom p qs

abbrev pub AllApart : List Piece → Type 0
AllApart [] = Unit {0}
AllApart (p ∷ ps) = ApartFrom p ps × AllApart ps

-- A context and the pieces it has handed out.
pub record IsBlkMem (m : BlkMem) (ps : List Piece) : Type 0 where
  pub size : ℕ
  pub area : Has m m.buff size
  pub room : m.start + 4088 ≤ size
  pub within : m.off ≤ 4088
  pub old : m.buff < m.granted
  pub aligned : (m.start % 8 ≡ 0) × (m.off % 8 ≡ 0)
  pub pieces : AllPieces m ps
  pub apart : AllApart ps

-- The pieces behind a call that may have handed out one more.
abbrev pub with_piece : Option Piece → List Piece → List Piece
with_piece none ps = ps
with_piece (some p) ps = p ∷ ps

-- A step keeps the pieces in place when it keeps their blocks.
pub keep :
    (m m' : BlkMem) (ps : List Piece)
    → ((block size : ℕ) → Has m block size → Has m' block size)
    → m.granted ≤ m'.granted
    → ((p : Piece) → IsPiece m p → p.block ≡ m'.buff → p.place + p.size ≤ m'.start + m'.off)
    → AllPieces m ps
    → AllPieces m' ps
keep m m' [] has more below v = tt
keep m m' (p ∷ ps) has more below (v, vs) = (
  record {
    size = v.size;
    inside = has p.block v.size v.inside;
    fits = v.fits;
    old = omega (arith, v.old);
    aligned = v.aligned;
    below = below p v;
  },
  keep m m' ps has more below vs,
)

-- A piece behind all those of its block is apart from them.
pub apart_from :
    (m : BlkMem) (p : Piece) (ps : List Piece)
    → ((q : Piece) → IsPiece m q → q.block ≡ p.block → q.place + q.size ≤ p.place)
    → AllPieces m ps
    → ApartFrom p ps
apart_from m p [] behind v = tt
apart_from m p (q ∷ qs) behind (v, vs) = (
  elim (ℕ_discrete p.block q.block) [ yes e ↦ inr (inr (behind q v (sym e))) | no e ↦ inl e ],
  apart_from m p qs behind vs,
)

pub carve-IsBlkMem :
    (m : BlkMem) (n : ℕ) (ps : List Piece)
    → IsBlkMem m ps
    → m.off + n ≤ 4088
    → n % 8 ≡ 0
    → IsBlkMem (carve m n).1 (with_piece (carve m n).0 ps)
unfolding carve
carve-IsBlkMem m n ps v h k = record {
  size = v.size;
  area = v.area;
  room = v.room;
  within = h;
  old = v.old;
  aligned = (v.aligned.0, omega (arith, v.aligned));
  pieces = (
    record {
      size = v.size;
      inside = v.area;
      fits = omega (arith, v.room, h);
      old = v.old;
      aligned = omega (arith, v.aligned);
      below = λ e. omega arith;
    },
    keep m (record m { off = m.off + n }) ps (λ b s x. x) (omega arith)
        (λ p w e. omega (arith, w.below e)) v.pieces,
  );
  apart = (apart_from m _ ps (λ q w e. w.below e) v.pieces, v.apart);
}

-- The context behind a block that was granted.
abbrev pub grown : BlkMem → ℕ → List Bool → BlkMem
grown m size grants = record m {
  mem_blks = record { block = m.granted; size = size } ∷ m.mem_blks;
  granted = m.granted + 1;
  grants = grants;
}

pub Has-grown :
    (m : BlkMem) (size : ℕ) (grants : List Bool) (block n : ℕ)
    → Has m block n
    → Has (grown m size grants) block n
Has-grown m size grants block n (inl h) = inl h
Has-grown m size grants block n (inr h) = inr (inr h)

-- The calls of the parent do not concern the pieces.
pub grants_apart :
    (m : BlkMem) (grants : List Bool) (ps : List Piece)
    → IsBlkMem m ps
    → IsBlkMem (record m { grants = grants }) ps
grants_apart m grants ps v = record {
  size = v.size;
  area = v.area;
  room = v.room;
  within = v.within;
  old = v.old;
  aligned = v.aligned;
  pieces =
      keep m (record m { grants = grants }) ps (λ b s x. x) (omega arith) (λ p w e. w.below e)
        v.pieces;
  apart = v.apart;
}
