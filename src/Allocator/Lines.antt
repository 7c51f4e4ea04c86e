-- ===== src/Allocator/Lines.antt =====
-- Cache lines of 64 bytes: which blocks stay within one.
use hosk.Base.{
  ℕ, ◌+◌, ◌-◌, ◌/◌, ◌%◌, ◌≤◌, ◌<◌, ◌≡◌, ◌≢◌, refl, true, false, List, [], ◌∷◌, arith, All,
}
use hosk.Allocator.{
  Allocator, cache_line_size, new_allocator, alignment_of, adjust, nrealloc, serve, nalloc,
}
use hosk.Allocator.Align.{align_lem}
use hosk.Allocator.Blocks.{Request, Block, nalloc_all}

-- The first and the last byte of the block lie in the same line.
abbrev pub InLine : Block → Type 0
InLine x = x.addr / cache_line_size ≡ (x.addr + x.size - 1) / cache_line_size

-- A request for at most half a line, at a time when new buffers start on a line.
abbrev pub IsSmall : Request → Type 0
IsSmall r = (0 < r.ssize) × (r.ssize ≤ 32) × (r.fresh % cache_line_size ≡ 0)

-- The free space starts on half a line.
record IsHalved (a : Allocator) : Type 0 where
  cache : a.cache_size ≡ cache_line_size
  cur : a.buf_cur % 32 ≡ 0

nalloc-IsHalved :
    (r : Request) {a : Allocator}
    → IsSmall r
    → IsHalved a
    → IsHalved (nalloc r.fresh r.ssize a).1
      × InLine (record { addr = (nalloc r.fresh r.ssize a).0; size = r.ssize })
unfolding nalloc alignment_of adjust serve nrealloc
nalloc-IsHalved r {a} small h = ground (arith, align_lem r.ssize 32)

nalloc_all-InLine_of :
    (rs : List Request) (blocks : List Block) {a : Allocator}
    → All IsSmall rs
    → IsHalved a
    → All InLine blocks
    → All InLine (nalloc_all rs blocks a)
unfolding nalloc_all
nalloc_all-InLine_of [] blocks small h lines = lines
nalloc_all-InLine_of (r ∷ rs) blocks {a} small h lines =
    let (h', line) = nalloc-IsHalved r small.0 h in
    nalloc_all-InLine_of rs
      (record { addr = (nalloc r.fresh r.ssize a).0; size = r.ssize } ∷ blocks) small.1 h'
      (line, lines)

-- If every request is for 1 to 32 bytes, as those for index and intermediate nodes are, and every
-- buffer starts on a cache line, then no block of a new allocator crosses from one line to another.
pub nalloc_all-InLine :
    (fresh size : ℕ) (rs : List Request)
    → fresh % cache_line_size ≡ 0
    → All IsSmall rs
    → All InLine (nalloc_all rs [] (new_allocator fresh size))
unfolding new_allocator
nalloc_all-InLine fresh size rs start small =
    nalloc_all-InLine_of rs [] small (record { cache = refl; cur = omega arith }) tt

-- A small request that the current buffer has room for leaves a half line pending, whether or not
-- one was pending before.
record Halved (a : Allocator) (b : Allocator) : Type 0 where
  cache : b.cache_size ≡ cache_line_size
  pending : b.last_alloc_half ≡ true
  cur : b.buf_cur ≡ a.buf_cur + 32
  end : b.buf_start + b.buf_size ≡ a.buf_start + a.buf_size

nalloc-Halved :
    (f n : ℕ) (a : Allocator)
    → a.cache_size ≡ cache_line_size
    → 0 < n
    → n ≤ 32
    → a.buf_cur + 32 ≤ a.buf_start + a.buf_size
    → Halved a (nalloc f n a).1
unfolding nalloc alignment_of adjust serve nrealloc
nalloc-Halved f n a cache pos small room = ground (arith, align_lem n 32)

nalloc_of_pending :
    (f n : ℕ) (a : Allocator)
    → a.cache_size ≡ cache_line_size
    → a.last_alloc_half ≡ true
    → 32 < n
    → n ≤ 64
    → a.buf_cur + 96 ≤ a.buf_start + a.buf_size
    → (nalloc f n a).0 ≡ a.buf_cur + 32
unfolding nalloc alignment_of adjust serve nrealloc
nalloc_of_pending f n a cache pending big small room = ground (arith, align_lem n 64)

-- Two requests for at most half a line, then one for more than half and at most a whole line, from
-- an allocator whose free space starts on a line, with no half line pending and room for 160 bytes:
-- the third block crosses from one line to the next, though nalloc moves the free space forward
-- "so we don't spill over cache lines".
pub nalloc-spills :
    (a : Allocator) (f₁ f₂ f₃ n₁ n₂ n₃ : ℕ)
    → a.cache_size ≡ cache_line_size
    → a.last_alloc_half ≡ false
    → a.buf_cur % cache_line_size ≡ 0
    → a.buf_cur + 160 ≤ a.buf_start + a.buf_size
    → (0 < n₁) × (n₁ ≤ 32) × (0 < n₂) × (n₂ ≤ 32) × (32 < n₃) × (n₃ ≤ 64)
    → let third = nalloc f₃ n₃ (nalloc f₂ n₂ (nalloc f₁ n₁ a).1).1 in
      third.0 / cache_line_size ≢ (third.0 + n₃ - 1) / cache_line_size
nalloc-spills a f₁ f₂ f₃ n₁ n₂ n₃ cache whole start room (p₁, s₁, p₂, s₂, p₃, s₃) =
    let h₁ = nalloc-Halved f₁ n₁ a cache p₁ s₁ (omega arith) in
    let b = (nalloc f₁ n₁ a).1 in
    let h₂ = nalloc-Halved f₂ n₂ b h₁.cache p₂ s₂ (omega arith) in
    let c = (nalloc f₂ n₂ b).1 in
    let third = nalloc_of_pending f₃ n₃ c h₂.cache h₂.pending p₃ s₃ (omega arith) in
    omega (arith, third, h₁.cur, h₂.cur)
