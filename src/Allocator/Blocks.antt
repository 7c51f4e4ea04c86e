-- ===== src/Allocator/Blocks.antt =====
-- The blocks that a sequence of requests is given do not overlap.
use hosk.Base.{ℕ, ◌+◌, ◌^◌, ◌≤◌, ◌<◌, ◌⊎◌, inl, List, [], ◌∷◌, arith, All, All-map, All-map_both}
use hosk.Allocator.{Allocator, cache_line_size, new_allocator, nalloc}
use hosk.Allocator.Align.{IsValid, Served, nalloc-Served}

-- A request, with the address that numa_alloc_local returns if it is called to serve it.
pub record Request : Type 0 where
  pub fresh : ℕ
  pub ssize : ℕ

pub record Block : Type 0 where
  pub addr : ℕ
  pub size : ℕ

abbrev pub Apart : Block → Block → Type 0
Apart x y = (x.addr + x.size ≤ y.addr) ⊎ (y.addr + y.size ≤ x.addr)

abbrev pub AllApart : List Block → Type 0
AllApart [] = Unit
AllApart (x ∷ xs) = All (Apart x) xs × AllApart xs

-- The blocks that the requests get, newest first, in front of those that were there.
unfoldable pub nalloc_all : List Request → List Block → Allocator → List Block
nalloc_all [] blocks a = blocks
nalloc_all (r ∷ rs) blocks a =
    let (p, b) = nalloc r.fresh r.ssize a in
    nalloc_all rs (record { addr = p; size = r.ssize } ∷ blocks) b

-- The contract of numa_alloc_local: the buffer that it would return for a request lies apart from
-- every block handed out before.
abbrev pub Supplied : List Request → List Block → Allocator → Type 0
Supplied [] blocks a = Unit
Supplied (r ∷ rs) blocks a =
    All (Apart (record { addr = r.fresh; size = a.buf_size })) blocks
    × Supplied rs (record { addr = (nalloc r.fresh r.ssize a).0; size = r.ssize } ∷ blocks)
        (nalloc r.fresh r.ssize a).1

-- Every request fits, with its alignment, in a buffer of this size.
abbrev pub Fits : ℕ → List Request → Type 0
Fits size = All (λ r. r.ssize + cache_line_size ≤ size)

-- A block is out of the way of what is left of the current buffer.
abbrev IsClear : Allocator → Block → Type 0
IsClear a x = (x.addr + x.size ≤ a.buf_cur) ⊎ (a.buf_start + a.buf_size ≤ x.addr)

module _ (r : Request) {a : Allocator} (v : IsValid a)
    (fits : r.ssize + cache_line_size ≤ a.buf_size) where
  abbrev served : Served r.fresh r.ssize a (nalloc r.fresh r.ssize a).0 (nalloc r.fresh r.ssize a).1
  served = nalloc-Served r.fresh r.ssize v fits

  abbrev got : Block
  got = record { addr = (nalloc r.fresh r.ssize a).0; size = r.ssize }

  Apart-got :
      (x : Block)
      → IsClear a x
      → Apart (record { addr = r.fresh; size = a.buf_size }) x
      → Apart got x × IsClear (nalloc r.fresh r.ssize a).1 x
  Apart-got x c d =
      ground (arith, served.valid.below, served.size, served.place, served.low, served.high)

nalloc_all-AllApart_of :
    (rs : List Request) (blocks : List Block) (a : Allocator)
    → IsValid a
    → Fits a.buf_size rs
    → AllApart blocks
    → All (IsClear a) blocks
    → Supplied rs blocks a
    → AllApart (nalloc_all rs blocks a)
unfolding nalloc_all
nalloc_all-AllApart_of [] blocks a v fits apart clear supply = apart
nalloc_all-AllApart_of (r ∷ rs) blocks a v fits apart clear supply =
    nalloc_all-AllApart_of rs (got r v fits.0 ∷ blocks) (nalloc r.fresh r.ssize a).1 now.valid
      (rw now.size fits.1) (All-map blocks (λ x h. h.0) both, apart)
      (inl now.high, All-map blocks (λ x h. h.1) both) supply.1
  where
    now : Served r.fresh r.ssize a (nalloc r.fresh r.ssize a).0 (nalloc r.fresh r.ssize a).1
    now = served r v fits.0

    both : All (λ x. Apart (got r v fits.0) x × IsClear (nalloc r.fresh r.ssize a).1 x) blocks
    both = All-map_both blocks (Apart-got r v fits.0) clear supply.0

-- From a new allocator, the blocks that any sequence of requests is given are pairwise disjoint,
-- if each request fits with its alignment in a buffer and numa_alloc_local returns memory that
-- holds no block already handed out.
pub nalloc_all-AllApart :
    (fresh size : ℕ) (rs : List Request)
    → size < 2 ^ 32
    → Fits size rs
    → Supplied rs [] (new_allocator fresh size)
    → AllApart (nalloc_all rs [] (new_allocator fresh size))
unfolding new_allocator
nalloc_all-AllApart fresh size rs small fits supply =
    nalloc_all-AllApart_of rs [] (new_allocator fresh size) (omega arith) fits tt tt supply
