-- ===== src/Tests/Allocators.antt =====
-- Requests to the allocator.
use mathlib.Core.List.{Perm}
use hosk.Base.{
  ℕ, ◌+◌, ◌-◌, ◌/◌, ◌≡◌, ◌≢◌, refl, true, false, none, List, [], ◌∷◌, arith, All, ◌&&◌,
  if◌then◌else◌, leb, ltb, ◌==◌,
}
use hosk.Allocator.{
  Allocator, new_allocator, align, alignment_of, nalloc, nfree, same_bytes, Memory, nreset,
  cache_line_size,
}
use hosk.Allocator.Align.{Served, nalloc-Served}
use hosk.Allocator.Blocks.{Request, AllApart, nalloc_all, nalloc_all-AllApart}
use hosk.Allocator.Lines.{InLine, nalloc_all-InLine, nalloc-spills}
use hosk.Allocator.Free.{nfree-nalloc, nfree-frees_last}
use hosk.Allocator.Buffers.{serve_all, obtained, nreset-perm}

abbrev fresh : Allocator
fresh = record {
  buf_start = 4096;
  buf_size = 256;
  buf_cur = 4096;
  empty = false;
  buf_old = 0;
  cache_size = 64;
  other_buffers = none;
  num_buffers = 0;
  last_alloc_half = false;
}

nalloc-Served_example : Served 8192 40 fresh (nalloc 8192 40 fresh).0 (nalloc 8192 40 fresh).1
nalloc-Served_example = nalloc-Served 8192 40 (omega arith) (omega arith)

-- Of five requests in buffers of 128 bytes the fifth needs a second buffer.
abbrev requests : List Request
requests = r ∷ r ∷ r ∷ r ∷ r ∷ []
  where
    r : Request
    r = record { fresh = 8192; ssize = 32 }

requests_run :
    nalloc_all requests [] (new_allocator 4096 128)
    ≡ record { addr = 8192; size = 32 }
      ∷ record { addr = 4192; size = 32 }
      ∷ record { addr = 4160; size = 32 }
      ∷ record { addr = 4128; size = 32 }
      ∷ record { addr = 4096; size = 32 }
      ∷ []
unfolding nalloc_all nalloc new_allocator align
requests_run = refl

nalloc_all-AllApart_example : AllApart (nalloc_all requests [] (new_allocator 4096 128))
unfolding nalloc new_allocator align
nalloc_all-AllApart_example =
    nalloc_all-AllApart 4096 128 requests (omega arith) (omega arith) (omega arith)

nalloc_all-InLine_example : All InLine (nalloc_all requests [] (new_allocator 4096 128))
nalloc_all-InLine_example = nalloc_all-InLine 4096 128 requests (omega arith) (omega arith)

nalloc-spills_example :
    let third = nalloc 0 64 (nalloc 0 32 (nalloc 0 32 fresh).1).1 in
    third.0 / cache_line_size ≢ (third.0 + 64 - 1) / cache_line_size
nalloc-spills_example =
    nalloc-spills fresh 0 0 0 32 32 64 refl refl (omega arith) (omega arith) (omega arith)

-- Memory in which every byte of the first buffer but the first is the same.
abbrev memory : Memory
memory a = if a == 4096 then 7 else 1

nfree-nalloc_example :
    let (p, b) = nalloc 8192 32 fresh in
    let (m', c) = nfree p 32 memory b in
    ((x : ℕ)
      → m' x ≡ (if leb p x && ltb x (p + align 32 (alignment_of fresh 32)) then 0 else memory x))
    × ((nalloc 8192 32 c).0 ≡ p)
nfree-nalloc_example = nfree-nalloc 8192 8192 32 memory fresh (omega arith) (omega arith)

-- The block at 4128 is the last one; that at 4160 was never handed out.
abbrev second : Allocator
second = record fresh { buf_cur = 4128; last_alloc_half = true; buf_old = 4096 }

nfree-frees_last_example :
    let (p, b) = nalloc 8192 32 second in
    (nfree 4160 32 memory b ≡ nfree p 32 memory b)
    × ((nalloc 8192 32 (nfree 4160 32 memory b).1).0 ≡ p)
unfolding same_bytes nalloc align
nfree-frees_last_example =
    nfree-frees_last 8192 8192 32 4160 memory second (omega arith) (omega arith) refl

nreset-perm_example :
    let a = new_allocator 4096 128 in
    let last = serve_all requests a in
    Perm (nreset last).0 (4096 ∷ obtained requests a) × ((nreset (nreset last).1).0 ≡ [])
nreset-perm_example = nreset-perm 4096 128 requests
