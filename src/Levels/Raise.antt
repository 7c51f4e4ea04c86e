-- ===== src/Levels/Raise.antt =====
-- The rounds of bg_raise_mlevel: what a round does to the levels, and what the rounds after it leave.
use hosk.Base.{
  ◌+◌, ℕ, zero, suc, ◌≤◌, ◌<◌, ◌≡◌, refl, sym, ◌∙◌, ◌≢◌, ◌⊎◌, inl, some, none, arith, ℕ_discrete,
}
use hosk.Enclave.{Ptr}
use hosk.Skiplist.{Mnode, Heap, null, write}
use hosk.Skiplist.Upper.{Memory, place}
use hosk.Index.{IsIndex}

-- No index node of `x` is where `h` has none.
abbrev pub Within : Heap → Heap → Type 0
Within h x = (a : Ptr) → h.inodes a ≡ none → x.inodes a ≡ none

abbrev pub used_at : Heap → Ptr → Heap
used_at h q = record h {
  inodes = write h.inodes q (some (record { right = 0; down = 0; intermed = 0; key = 0 }));
}

-- The allocator has room for `n` more index nodes.
unfoldable pub Rooms : Memory → ℕ → Heap → Type 0
Rooms mem zero h = Unit {0}
Rooms mem (suc n) h =
    (x : Heap)
    → Within h x
    → (place mem x ≢ null) × (x.inodes (place mem x) ≡ none) × Rooms mem n (used_at h (place mem x))

-- The rooms that are left of `room` when the heap is `h`, where at most `n` were taken.
abbrev pub Left : Memory → ℕ → ℕ → Heap → Type 0
Left mem room n h = (r : ℕ) × (old : Heap) × Rooms mem r old × Within old h × (room ≤ r + n)

-- Levels go up to `level` or stay.
abbrev pub Lifts : ℕ → Heap → Heap → Type 0
Lifts level h h' =
    (a : Ptr) (y : Mnode)
    → h.mnodes a ≡ some y
    → (x : Mnode) × (h'.mnodes a ≡ some x)
      × (x.key ≡ y.key)
      × (x.next ≡ y.next)
      × (x.marked ≡ y.marked)
      × ((x.level ≡ y.level) ⊎ ((y.level < level) × (x.level ≡ level)))

pub Lifts-refl : (level : ℕ) (h : Heap) → Lifts level h h
Lifts-refl level h a y e = (y, e, refl, refl, refl, inl refl)

pub Lifts-trans :
    (level : ℕ) (h h' h'' : Heap) → Lifts level h h' → Lifts level h' h'' → Lifts level h h''
Lifts-trans level h h' h'' s t a y e =
    let (x, ex, kx, nx, mx, lx) = s a y e in
    let (z, ez, kz, nz, mz, lz) = t a x ex in (z, ez, kz ∙ kx, nz ∙ nx, mz ∙ mx, ground arith)

-- From the key `k` on, one of any three nodes in a row has a level.
abbrev pub Spaced : ℕ → Heap → Type 0
Spaced k h =
    (a : Ptr) (x y z : Mnode)
    → h.mnodes a ≡ some x
    → h.mnodes x.next ≡ some y
    → h.mnodes y.next ≡ some z
    → k ≤ x.key
    → ¬ ((x.level ≡ 0) × (y.level ≡ 0) × (z.level ≡ 0))

module _ (h : Heap) {height : Ptr → ℕ} (index : IsIndex height h) {p q : Ptr} {n m : Mnode}
    (before : h.mnodes p ≡ some n) (leads : n.next ≡ q) (here : h.mnodes q ≡ some m) where
  -- The last two nodes.
  pub last-Spaced : m.next ≡ null → Spaced n.key h
  last-Spaced end a x y z ex ey ez le (l1, l2, l3) =
      let (y', ey', f1) = index.mnodes.follows a x ex (index.live_mnode x.next y ey) in
      let (z', ez', f2) = index.mnodes.follows x.next y ey (index.live_mnode y.next z ez) in
      let (m', em', f3) =
        index.mnodes.follows p n before (λ w. index.live_mnode q m here (sym leads ∙ w)) in
      let far : n.key < y.key = ground arith in
      let near : m.key ≤ y.key = ground (arith, index.mnodes.least p x.next n y m before ey far) in
      index.mnodes.goes_on q y.next m z here ez (ground arith) end

  -- One more node in front.
  pub next-Spaced :
      ((z : Mnode) → h.mnodes m.next ≡ some z → ¬ ((n.level ≡ 0) × (m.level ≡ 0) × (z.level ≡ 0)))
      → Spaced m.key h
      → Spaced n.key h
  next-Spaced first rest a x y z ex ey ez le = elim (ℕ_discrete n.key x.key) [
    | yes same ↦
        let at : p ≡ a = index.mnodes.unique p a n x before ex same in
        λ (l1, l2, l3). first z (ground arith) (ground arith, ground arith, l3)
    | no differ ↦ rest a x y z ex ey ez (ground (arith, index.mnodes.least p a n x m before ex))
  ]

Within-used : (old h : Heap) (q : Ptr) → Within old h → Within (used_at old q) (used_at h q)
Within-used old h q within a e = ground (arith, within a)

-- The rooms are there for a later heap too.
pub Rooms-Within :
    (mem : Memory) (n : ℕ) (old h : Heap) → Rooms mem n old → Within old h → Rooms mem n h
unfolding Rooms
Rooms-Within mem zero old h rooms within = tt
Rooms-Within mem (suc n) old h rooms within = λ x inside.
    let (live, unused, rest) = rooms x (λ a e. inside a (within a e)) in
    (
      live,
      unused,
      Rooms-Within mem n (used_at old (place mem x)) (used_at h (place mem x)) rest
          (Within-used old h (place mem x) within),
    )
