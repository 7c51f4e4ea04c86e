-- ===== src/Allocator/Free.antt =====
-- nfree: it gives the last block back, and it compares bytes where it means addresses.
use hosk.Base.{
  ℕ, zero, suc, ◌+◌, ◌/◌, ◌≤◌, ◌≡◌, refl, sym, ap, ◌∙◌, true, false, arith, if◌then◌else◌, leb, ltb,
  ◌&&◌, ◌==◌,
}
use hosk.Allocator.{
  Allocator, cache_line_size, Memory, align, alignment_of, adjust, nrealloc, serve, nalloc,
  same_bytes, zero_bytes, nfree,
}
use hosk.Allocator.Align.{IsValid, align_lem}

same_bytes_self : (m : Memory) (p n : ℕ) → same_bytes m p p n ≡ true
unfolding same_bytes
same_bytes_self m p zero = refl
same_bytes_self m p (suc n) = ground (arith, same_bytes_self m p n)

-- What is known of the allocator when it has returned the block at `p`.
record Given (n : ℕ) (a : Allocator) (p : ℕ) (b : Allocator) : Type 0 where
  cache : b.cache_size ≡ a.cache_size
  last : b.buf_old ≡ p
  room : p + align n (alignment_of a n) ≤ b.buf_start + b.buf_size
  pending : b.last_alloc_half ≡ (alignment_of a n == a.cache_size / 2)

module _ (f n : ℕ) {a : Allocator} (v : IsValid a) (fits : n + cache_line_size ≤ a.buf_size) where
  nalloc-Given : Given n a (nalloc f n a).0 (nalloc f n a).1
  unfolding nalloc adjust serve nrealloc alignment_of
  nalloc-Given = ground (arith, align_lem n 32, align_lem n 64)

-- With no half line pending, a request that the buffer has room for is served where it stands.
nalloc_at :
    (f n : ℕ) (c : Allocator)
    → c.last_alloc_half ≡ false
    → c.buf_cur + align n (alignment_of c n) ≤ c.buf_start + c.buf_size
    → (nalloc f n c).0 ≡ c.buf_cur
unfolding nalloc adjust serve nrealloc
nalloc_at f n c none_pending room = ground arith

-- To free, just after a request, any block with the same bytes as the new one undoes the request.
nfree-same :
    (q n : ℕ) (m : Memory) (a : Allocator) (p : ℕ) (b : Allocator)
    → Given n a p b
    → same_bytes m q p (align n (alignment_of a n)) ≡ true
    → nfree q n m b ≡ (
      zero_bytes m p (align n (alignment_of a n)),
      record b { buf_cur = p; last_alloc_half = false },
    )
unfolding nfree alignment_of
nfree-same q n m a p b g same = ground (arith, g.cache, g.last, g.pending, same)

alignment_of-Given :
    {n : ℕ} {a : Allocator} {p : ℕ} {b : Allocator}
    → Given n a p b
    → alignment_of b n ≡ alignment_of a n
unfolding alignment_of
alignment_of-Given g = rw g.cache

again :
    (f' n q : ℕ) (m : Memory) (a : Allocator) (p : ℕ) (b : Allocator)
    → Given n a p b
    → same_bytes m q p (align n (alignment_of a n)) ≡ true
    → (nalloc f' n (nfree q n m b).1).0 ≡ p
unfolding alignment_of
again f' n q m a p b g same = rw (nfree-same q n m a p b g same) (
    nalloc_at f' n (record b { buf_cur = p; last_alloc_half = false }) refl
      (rw (ap (λ k. align n k) (alignment_of-Given g)) g.room))

-- nalloc and then nfree of the block that it returned, from a valid allocator and for a size that
-- fits: the memory of the block is zero and all other memory as before, and the next request of
-- that size is given the same block.
pub nfree-nalloc :
    (f f' n : ℕ) (m : Memory) (a : Allocator)
    → IsValid a
    → n + cache_line_size ≤ a.buf_size
    → let (p, b) = nalloc f n a in
      let (m', c) = nfree p n m b in
      ((x : ℕ) → m' x ≡ (if leb p x && ltb x (p + align n (alignment_of a n)) then 0 else m x))
      × ((nalloc f' n c).0 ≡ p)
unfolding zero_bytes
nfree-nalloc f f' n m a v fits =
    let g = nalloc-Given f n v fits in
    let same = same_bytes_self m (nalloc f n a).0 (align n (alignment_of a n)) in
    (
      λ x. rw (nfree-same _ n m a _ _ g same) refl,
      again f' n (nalloc f n a).0 m a (nalloc f n a).0 (nalloc f n a).1 g same,
    )

-- A block `q` that holds the same bytes as the last block `p` is taken for it: from a valid
-- allocator and for a size that fits, to free `q` after nalloc has returned `p` gives `p` back,
-- and the next request of that size is given `p`, whether or not `q` is `p`.
pub nfree-frees_last :
    (f f' n q : ℕ) (m : Memory) (a : Allocator)
    → IsValid a
    → n + cache_line_size ≤ a.buf_size
    → same_bytes m q (nalloc f n a).0 (align n (alignment_of a n)) ≡ true
    → let (p, b) = nalloc f n a in
      (nfree q n m b ≡ nfree p n m b) × ((nalloc f' n (nfree q n m b).1).0 ≡ p)
nfree-frees_last f f' n q m a v fits same =
    let g = nalloc-Given f n v fits in
    let itself = same_bytes_self m (nalloc f n a).0 (align n (alignment_of a n)) in
    (
      nfree-same q n m a _ _ g same ∙ sym (nfree-same _ n m a _ _ g itself),
      again f' n q m a (nalloc f n a).0 (nalloc f n a).1 g same,
    )
