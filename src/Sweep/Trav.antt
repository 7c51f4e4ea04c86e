-- ===== src/Sweep/Trav.antt =====
-- bg_trav_mnodes removes the marked nodes of the intermediate layer that have no level.
use hosk.Skiplist.Upper.{mnode_delete}
use hosk.Base.{ℕ, ◌≤◌, ◌<◌, ◌≡◌, refl, ◌∙◌, ◌≢◌, ◌↔◌, Bool, true, false, some, arith, ℕ_discrete}
use hosk.Enclave.{Ptr}
use hosk.Skiplist.{Mnode, Heap, Run, null, ok}
use hosk.Chain.Unlink.{unlinked, unlinked-IsChain}
use hosk.Index.{IsSkiplist}
use hosk.Index.Change.{mnodes-IsSkiplist}
use hosk.Helper.{bg_mremove}
use hosk.Skiplist.Upper.{load_mnode, store_mnode, mnode_delete}
use hosk.Sweep.{Dels, bg_mremove, load_mnode, store_mnode}

-- The layer has a node with the key, mark and level.
abbrev pub Stands : Heap → ℕ → Bool → ℕ → Type 0
Stands h j b l =
    (p : Ptr) × (m : Mnode) × (h.mnodes p ≡ some m) × (m.key ≡ j) × (m.marked ≡ b) × (m.level ≡ l)

-- What is swept away behind the key `k`.
abbrev pub IsSwept : ℕ → ℕ → Bool → ℕ → Type 0
IsSwept k j b l = (k < j) × (b ≡ true) × (l ≡ 0)

abbrev pub Sweeps : ℕ → Heap → Heap → Type 0
Sweeps k h h' = (j : ℕ) (b : Bool) (l : ℕ) → Stands h' j b l ↔ (Stands h j b l × ¬ IsSwept k j b l)

-- All keys of the layer are below the bound.
abbrev pub Below : ℕ → Heap → Type 0
Below bound h = (p : Ptr) (m : Mnode) → h.mnodes p ≡ some m → m.key < bound

abbrev pub Swept : (Ptr → ℕ) → Ptr → ℕ → Heap → Run Dels → Type 0
Swept height sentinel k h r =
    (h' : Heap) × (d : Dels) × (r ≡ ok d h')
    × IsSkiplist height sentinel h'
    × (h' ≡ record h { mnodes = h'.mnodes })
    × Sweeps k h h'

module _ {height : Ptr → ℕ} {sentinel : Ptr} (h : Heap) (whole : IsSkiplist height sentinel h)
    {p q : Ptr} {n m : Mnode} (before : h.mnodes p ≡ some n) (here : h.mnodes q ≡ some m)
    (leads : n.next ≡ q) where
  live : q ≢ null
  live = whole.index.live_mnode q m here

  up : n.key < m.key
  up =
      let (x, ex, lt) = whole.index.mnodes.follows p n before (ground (arith, live)) in
      ground (arith, here)

  abbrev pub removed : Heap
  removed = record h { mnodes = unlinked h.mnodes p (record n { next = m.next }) q }

  -- No key stands between the two.
  between : (a : Ptr) (x : Mnode) → h.mnodes a ≡ some x → n.key < x.key → m.key ≤ x.key
  between a x e lt = whole.index.mnodes.least p a n x m before e lt (ground (arith, here))

  module _ (level : m.level ≡ 0) (mark : m.marked ≡ true) where
    pub bg_mremove-removes : bg_mremove p q h ≡ ok true removed
    unfolding bg_mremove load_mnode store_mnode mnode_delete
    bg_mremove-removes = ground (arith, before, here, live, whole.index.live_mnode p n before)

    kept :
        (b : Ptr) (z : Mnode)
        → h.mnodes b ≡ some z
        → b ≢ q
        → (z' : Mnode) × (removed.mnodes b ≡ some z')
          × (z'.key ≡ z.key)
          × (z'.marked ≡ z.marked)
          × (z'.level ≡ z.level)
    kept b z e ne = elim (ℕ_discrete p b) [
      | yes w ↦ (
        record n { next = m.next },
        ground (arith, up, here, before),
        ground (arith, before),
        ground (arith, before),
        ground (arith, before),
      )
      | no ne_p ↦ (z, ground arith, refl, refl, refl)
    ]

    origin :
        (b : Ptr) (z : Mnode)
        → removed.mnodes b ≡ some z
        → (b ≢ q)
          × ((z' : Mnode) × (h.mnodes b ≡ some z')
              × (z'.key ≡ z.key)
              × (z'.marked ≡ z.marked)
              × (z'.level ≡ z.level)
              × (z'.node ≡ z.node))
    origin b z e = elim (ℕ_discrete p b) [
      | yes w ↦
          (ground arith, (n, ground arith, ground arith, ground arith, ground arith, ground arith))
      | no ne_p ↦ (ground arith, (z, ground arith, refl, refl, refl, refl))
    ]

    pub removed-IsSkiplist : IsSkiplist height sentinel removed
    removed-IsSkiplist =
        mnodes-IsSkiplist h whole removed.mnodes
          (unlinked-IsChain whole.index.mnodes before here leads live (record n { next = m.next })
            refl refl)
          (λ b z e.
            let (ne, (z', ez, kz, _, _, same)) = origin b z e in
            let (x, ex, kx) = whole.index.node b z' ez in
            (whole.index.live_mnode b z' ez, (x, ground arith, kx ∙ kz)))
          (λ b z e high.
            let (z', ez, kz, _, lz) = kept b z e (λ w. ground (arith, here)) in
            (z', ez, kz, omega arith, λ _. lz))

    -- One node less, and the sweep behind `p` goes on.
    pub removed-Sweeps : (h' : Heap) → Sweeps n.key removed h' → Sweeps n.key h h'
    removed-Sweeps h' sweeps j b l =
        let (to, from) = sweeps j b l in
        (
          λ s.
              let ((a, z, e, kz, mz, lz), stays) = to s in
              let (ne, (z', ez, k', m', l', _)) = origin a z e in
              ((a, z', ez, k' ∙ kz, m' ∙ mz, l' ∙ lz), stays),
          λ ((a, z, e, kz, mz, lz), stays).
              let ne : a ≢ q = λ w. stays (ground (arith, here, up)) in
              let (z', ez, k', m', l') = kept a z e ne in
              from ((a, z', ez, k' ∙ kz, m' ∙ mz, l' ∙ lz), stays),
        )

  module _ (stays : ¬ ((m.level ≡ 0) × (m.marked ≡ true))) where
    pub bg_mremove-keeps : bg_mremove p q h ≡ ok false h
    unfolding bg_mremove load_mnode
    bg_mremove-keeps = ground (arith, before, here, live, whole.index.live_mnode p n before)

    -- Nothing to sweep up to `q`.
    pub kept-Sweeps : (h' : Heap) → Sweeps m.key h h' → Sweeps n.key h h'
    kept-Sweeps h' sweeps j b l =
        let (to, from) = sweeps j b l in
        (
          λ s.
              let ((a, z, e, kz, mz, lz), later) = to s in
              (
                (a, z, e, kz, mz, lz),
                λ (lt, t, zero_level). elim (ℕ_discrete j m.key) [
                  | yes same ↦
                      stays (ground (arith, here, whole.index.mnodes.unique a q z m e here))
                  | no differ ↦ later (omega (arith, between a z e, differ), t, zero_level)
                ],
              ),
          λ (s, now). from (s, λ (lt, t, zero_level). now (omega (arith, up), t, zero_level)),
        )
