-- ===== src/Allocator.antt =====
-- The linear allocator of src/hosk/allocator.h and src/hosk/allocator.cpp. Addresses are numbers
-- and `unsigned` sums wrap at 2 ^ 32. `fresh` is what numa_alloc_local returns if it is called;
-- numa_free and free are the buffers that a call gives back. Memory is a function from addresses to
-- bytes, which only nfree reads and writes.
pub mod Align
pub mod Blocks
pub mod Lines
pub mod Free
pub mod Buffers
use hosk.Base.{
  ℕ, zero, suc, ◌+◌, ◌-◌, ◌/◌, ◌%◌, ◌^◌, ◌≡◌, Bool, true, false, not, ◌&&◌, Option, none, some,
  List, [], ◌∷◌, ◌++◌, ◌==◌, leb, ltb, if◌then◌else◌, get_or,
}

abbrev pub cache_line_size : ℕ
cache_line_size = 64

-- `other_buffers` is `none` for the null pointer.
pub record Allocator : Type 0 where
  pub buf_start : ℕ
  pub buf_size : ℕ
  pub buf_cur : ℕ
  pub empty : Bool
  pub buf_old : ℕ
  pub cache_size : ℕ
  pub other_buffers : Option (List ℕ)
  pub num_buffers : ℕ
  pub last_alloc_half : Bool

unfoldable pub new_allocator : (fresh : ℕ) → ℕ → Allocator
new_allocator fresh ssize = record {
  buf_start = fresh;
  buf_size = ssize;
  buf_cur = fresh;
  empty = false;
  buf_old = 0;
  cache_size = cache_line_size;
  other_buffers = none;
  num_buffers = 0;
  last_alloc_half = false;
}

unfoldable pub align : ℕ → ℕ → ℕ
align old alignment = (old + (alignment - old % alignment) % alignment) % 2 ^ 32

-- The alignment that nalloc and nfree choose for a request.
unfoldable pub alignment_of : Allocator → ℕ → ℕ
alignment_of a ssize = if leb ssize (a.cache_size / 2) then a.cache_size / 2 else a.cache_size

-- The buffers put away, with the current one behind them.
abbrev pub put_away : Option (List ℕ) → ℕ → List ℕ
put_away none start = start ∷ []
put_away (some bs) start = bs ++ start ∷ []

unfoldable pub nrealloc : (fresh : ℕ) → Allocator → Allocator
nrealloc fresh a = record a {
  num_buffers = a.num_buffers + 1;
  other_buffers = some (put_away a.other_buffers a.buf_start);
  buf_cur = fresh;
  buf_start = fresh;
}

-- The move of the free space that keeps requests within cache lines.
unfoldable pub adjust : ℕ → Allocator → Allocator
adjust alignment a =
    if a.last_alloc_half && (alignment == a.cache_size)
    then record a { buf_cur = a.buf_cur + a.cache_size / 2; last_alloc_half = false }
    else if not a.last_alloc_half && (alignment == a.cache_size / 2)
    then record a { last_alloc_half = true }
    else a

-- The end of `nalloc`: a new buffer if the room does not suffice, and the request.
unfoldable pub serve : (fresh : ℕ) → ℕ → Allocator → ℕ × Allocator
unfolding nrealloc
serve fresh aligned_size a =
    let b =
      if ltb (a.buf_start + a.buf_size) (a.buf_cur + aligned_size) then nrealloc fresh a else a in
    (b.buf_cur, record b { buf_old = b.buf_cur; buf_cur = b.buf_cur + aligned_size })

unfoldable pub nalloc : (fresh : ℕ) → ℕ → Allocator → ℕ × Allocator
unfolding alignment_of adjust serve
nalloc fresh ssize a =
    let alignment = alignment_of a ssize in serve fresh (align ssize alignment) (adjust alignment a)

abbrev pub Memory : Type 0
Memory = ℕ → ℕ

-- memcmp of the C library, as the source uses it: whether `n` bytes agree.
unfoldable pub same_bytes : Memory → ℕ → ℕ → ℕ → Bool
same_bytes m p q zero = true
same_bytes m p q (suc n) = (m (p + n) == m (q + n)) && same_bytes m p q n

-- memset of the C library to zero.
unfoldable pub zero_bytes : Memory → ℕ → ℕ → Memory
zero_bytes m p n a = if leb p a && ltb a (p + n) then 0 else m a

unfoldable pub nfree : (ptr : ℕ) → ℕ → Memory → Allocator → Memory × Allocator
unfolding alignment_of
nfree ptr ssize m a =
    let alignment = alignment_of a ssize in
    let aligned_size = align ssize alignment in
    if same_bytes m ptr a.buf_old aligned_size
    then (
      zero_bytes m a.buf_old aligned_size,
      record a {
        buf_cur = a.buf_old;
        last_alloc_half =
            if a.last_alloc_half && (alignment == a.cache_size / 2)
            then false
            else a.last_alloc_half;
      },
    )
    else (m, a)

-- The loop of nreset over the buffers put away, from index `n` - 1 down to 0: what it frees.
unfoldable pub free_others : List ℕ → ℕ → List ℕ
free_others bs zero = []
free_others bs (suc i) = get_or bs i 0 ∷ free_others bs i

-- The buffers given back, in order, and the allocator.
unfoldable pub nreset : Allocator → List ℕ × Allocator
unfolding free_others
nreset a = if a.empty then ([], a) else (
  (elim a.other_buffers [ none ↦ [] | some bs ↦ free_others bs a.num_buffers ]) ++ a.buf_start ∷ [],
  record a { empty = true },
)
