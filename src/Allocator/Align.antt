-- ===== src/Allocator/Align.antt =====
-- The sizes that the allocator reserves, and what one request does.
use hosk.Base.{ℕ, ◌+◌, ◌*◌, ◌-◌, ◌/◌, ◌%◌, ◌^◌, ◌≤◌, ◌<◌, ◌≡◌, ◌⊎◌, arith, ℕ_discrete}
use native.Mathlib.Nat.{mod-eq_of_lt, mod_self, add-zero, div-add-mod, mul-mod_right}
use hosk.Allocator.{
  Allocator, cache_line_size, align, alignment_of, adjust, nrealloc, serve, nalloc,
}

-- For a positive alignment and a size for which the sum does not pass 2 ^ 32, `align` gives the
-- least multiple of the alignment that is not below the size.
pub align_lem :
    (old al : ℕ)
    → 0 < al
    → old + al ≤ 2 ^ 32
    → (old ≤ align old al) × (align old al < old + al) × (align old al % al ≡ 0)
unfolding align
align_lem old al h small = elim (ℕ_discrete (old % al) 0) [
  | yes e ↦
      let rest : al - old % al ≡ al = omega arith in
      rw (rest, mod_self al, add-zero, mod-eq_of_lt {n = old} {m = 2 ^ 32} (omega arith))
        (omega arith, omega arith, e)
  | no ne ↦
      let rest : (al - old % al) % al ≡ al - old % al = mod-eq_of_lt (omega arith) in
      let sum : old + (al - old % al) ≡ al * (old / al + 1) = grind (arith, div-add-mod) in
      rw (rest, mod-eq_of_lt {n = old + (al - old % al)} {m = 2 ^ 32} (omega arith))
        (omega arith, omega arith, rw sum (mul-mod_right al (old / al + 1)))
]

-- The invariant: the free space starts inside the buffer or at its end.
pub record IsValid (a : Allocator) : Type 0 where
  pub cache : a.cache_size ≡ cache_line_size
  pub above : a.buf_start ≤ a.buf_cur
  pub below : a.buf_cur ≤ a.buf_start + a.buf_size
  pub word : a.buf_size < 2 ^ 32

-- What a request of `ssize` bytes does.
pub record Served (fresh ssize : ℕ) (a : Allocator) (p : ℕ) (b : Allocator) : Type 0 where
  pub valid : IsValid b
  pub size : b.buf_size ≡ a.buf_size
  pub place :
      ((b.buf_start ≡ a.buf_start) × (a.buf_cur ≤ p)) ⊎ ((b.buf_start ≡ fresh) × (p ≡ fresh))
  pub low : b.buf_start ≤ p
  pub high : p + ssize ≤ b.buf_cur
  pub last : b.buf_old ≡ p

pub align-alignment_of :
    (a : Allocator) (ssize : ℕ)
    → a.cache_size ≡ cache_line_size
    → ssize + cache_line_size ≤ 2 ^ 32
    → (ssize ≤ align ssize (alignment_of a ssize))
      × (align ssize (alignment_of a ssize) < ssize + cache_line_size)
unfolding alignment_of
align-alignment_of a ssize e small = ground (arith, align_lem ssize 32, align_lem ssize 64)

-- A request that fits, with its alignment, in a buffer is served within the current buffer, or at
-- the start of a new one: from a valid allocator, the block that nalloc returns lies in the
-- buffer, behind all that was handed out of it, and the allocator stays valid.
pub nalloc-Served :
    (fresh ssize : ℕ) {a : Allocator}
    → IsValid a
    → ssize + cache_line_size ≤ a.buf_size
    → Served fresh ssize a (nalloc fresh ssize a).0 (nalloc fresh ssize a).1
unfolding nalloc adjust serve nrealloc
nalloc-Served fresh ssize {a} v fits = ground (arith, align-alignment_of a ssize)
