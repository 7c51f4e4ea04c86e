-- ===== src/Allocator/Buffers.antt =====
-- The buffers that the allocator has obtained, and nreset, which gives them back.
use mathlib.Core.List.{Perm, perm_append_singleton, append-nil, append_assoc}
use mathlib.Core.List.Perm
use hosk.Base.{
  ℕ, zero, suc, ◌+◌, ◌≤◌, ◌≡◌, refl, sym, ap, Bool, false, Bool-cases, inl, inr, Option, none, some,
  List, [], ◌∷◌, ◌++◌, arith, if◌then◌else◌, length, length-append, take, take-snoc, get_or, ltb,
}
use hosk.Allocator.{
  Allocator, new_allocator, put_away, nalloc, adjust, serve, nrealloc, free_others, nreset, align,
  alignment_of,
}
use hosk.Allocator.Blocks.{Request}

-- Whether a request makes the allocator obtain a buffer.
abbrev needs_buffer : Request → Allocator → Bool
needs_buffer r a =
    let al = alignment_of a r.ssize in
    let b = adjust al a in ltb (b.buf_start + b.buf_size) (b.buf_cur + align r.ssize al)

-- The allocator after the requests, and the buffers that they obtained, oldest first.
unfoldable pub serve_all : List Request → Allocator → Allocator
serve_all [] a = a
serve_all (r ∷ rs) a = serve_all rs (nalloc r.fresh r.ssize a).1

unfoldable pub obtained : List Request → Allocator → List ℕ
obtained [] a = []
obtained (r ∷ rs) a =
    let rest = obtained rs (nalloc r.fresh r.ssize a).1 in
    if needs_buffer r a then r.fresh ∷ rest else rest

-- The buffers that the allocator knows of, oldest first, are these.
record Holds (bs : List ℕ) (a : Allocator) : Type 0 where
  held : put_away a.other_buffers a.buf_start ≡ bs
  count : length bs ≡ a.num_buffers + 1
  live : a.empty ≡ false

nalloc-Holds :
    (r : Request) (bs : List ℕ) (a : Allocator)
    → Holds bs a
    → Holds (if needs_buffer r a then bs ++ r.fresh ∷ [] else bs) (nalloc r.fresh r.ssize a).1
unfolding nalloc adjust serve nrealloc alignment_of
nalloc-Holds r bs a h = ground (arith, length-append bs (r.fresh ∷ []))

serve_all-Holds :
    (rs : List Request) (bs : List ℕ) (a : Allocator)
    → Holds bs a
    → Holds (bs ++ obtained rs a) (serve_all rs a)
unfolding serve_all obtained
serve_all-Holds [] bs a h = rw (append-nil bs) h
serve_all-Holds (r ∷ rs) bs a h = elim (Bool-cases (needs_buffer r a)) [
  | inl e ↦
      let step : Holds (bs ++ r.fresh ∷ []) (nalloc r.fresh r.ssize a).1 =
        rw e at (nalloc-Holds r bs a h) in
      rw (e, ← append_assoc bs (r.fresh ∷ []) (obtained rs (nalloc r.fresh r.ssize a).1))
        (serve_all-Holds rs _ _ step)
  | inr e ↦
      let step : Holds bs (nalloc r.fresh r.ssize a).1 = rw e at (nalloc-Holds r bs a h) in
      rw e (serve_all-Holds rs _ _ step)
]

free_others-perm : (bs : List ℕ) (n : ℕ) → n ≤ length bs → Perm (free_others bs n) (take n bs)
unfolding free_others
free_others-perm bs zero h = Perm.refl []
free_others-perm bs (suc n) h = rw (take-snoc n bs 0 h) (
    Perm.trans (Perm.cons (get_or bs n 0) (free_others-perm bs n (omega arith)))
      (Perm.symm (perm_append_singleton (get_or bs n 0) (take n bs))))

take-length : (bs : List ℕ) → take (length bs) bs ≡ bs
take-length [] = refl
take-length (b ∷ bs) = ap (λ l. b ∷ l) (take-length bs)

nreset-perm_of :
    (others : Option (List ℕ)) (bs : List ℕ) (a : Allocator)
    → a.other_buffers ≡ others
    → Holds bs a
    → Perm (nreset a).0 bs
unfolding nreset
nreset-perm_of none bs a e h = rw (h.live, e) (rw (sym h.held, e) (Perm.refl _))
nreset-perm_of (some os) bs a e h =
    rw (h.live, e, num)
      (rw (sym h.held, e)
        (Perm.append_right (a.buf_start ∷ [])
          (rw (take-length os) at (free_others-perm os (length os) (omega arith)))))
  where
    held : os ++ a.buf_start ∷ [] ≡ bs
    held = rw e at h.held

    num : a.num_buffers ≡ length os
    num = omega (arith, h.count, ap length held, length-append os (a.buf_start ∷ []))

nreset-nreset : (a : Allocator) → (nreset (nreset a).1).0 ≡ []
unfolding nreset
nreset-nreset a = ground arith

-- After any sequence of requests to a new allocator, nreset gives back each buffer that was ever
-- obtained, as often as it was obtained and no other; a second nreset gives back nothing.
pub nreset-perm :
    (fresh size : ℕ) (rs : List Request)
    → let a = new_allocator fresh size in
      let last = serve_all rs a in
      Perm (nreset last).0 (fresh ∷ obtained rs a) × ((nreset (nreset last).1).0 ≡ [])
unfolding new_allocator
nreset-perm fresh size rs =
    let a = new_allocator fresh size in
    let new : Holds (fresh ∷ []) a = record { held = refl; count = omega arith; live = refl } in
    (
      nreset-perm_of _ _ (serve_all rs a) refl (serve_all-Holds rs (fresh ∷ []) a new),
      nreset-nreset (serve_all rs a),
    )
