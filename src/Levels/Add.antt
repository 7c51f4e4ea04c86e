-- ===== src/Levels/Add.antt =====
-- What happens when a new index node is put over an intermediate node.
use hosk.Base.{
  ◌+◌, ℕ, ◌≤◌, ◌<◌, ◌≡◌, refl, sym, ◌≢◌, ◌⊎◌, ◌↔◌, inl, inr, Bool, true, false, some, none, arith,
  ℕ_discrete, Bool-cases, ◌==◌, ==_false, ltb, if◌then◌else◌, ◌∙◌,
}
use hosk.Enclave.{Ptr}
use hosk.Skiplist.{Node, Inode, Mnode, Store, Heap, Word, null, ok, write, load_node, store_node}
use hosk.Skiplist.Upper.{Memory, place, inode_new, load_inode, load_mnode, store_inode, store_mnode}
use hosk.Application.Layer.{Maps, KeepsKeys, write-KeepsKeys}
use hosk.Application.Values.{relabel-Maps}
use hosk.Helper.Update.{Tracks}
use hosk.Index.{IsSkiplist}
use hosk.Index.Change.{remarked-IsSkiplist, leveled-IsSkiplist}
use hosk.Index.Inodes.{added_inode-IsIndex, relinked-IsIndex}
use hosk.Levels.{add_above}

-- The same keys, values and marks.
abbrev pub SameContents : Heap → Heap → Type 0
SameContents h h' =
    ((j : ℕ) (v : Word) → Maps h'.nodes j v ↔ Maps h.nodes j v)
    × ((j : ℕ) (b : Bool) → Tracks h' j b ↔ Tracks h j b)
    × KeepsKeys h.nodes h'.nodes

pub SameContents-refl : (h : Heap) → SameContents h h
SameContents-refl h = (λ j v. (λ x. x, λ x. x), λ j b. (λ x. x, λ x. x), λ p n e. (n, e, refl))

pub SameContents-trans :
    (h h' h'' : Heap) → SameContents h h' → SameContents h' h'' → SameContents h h''
SameContents-trans h h' h'' (ms, ts, ks) (ms', ts', ks') = (
  λ j v. (λ x. (ms j v).0 ((ms' j v).0 x), λ x. (ms' j v).1 ((ms j v).1 x)),
  λ j b. (λ x. (ts j b).0 ((ts' j b).0 x), λ x. (ts' j b).1 ((ts j b).1 x)),
  λ p n e. let (x, ex, kx) = ks p n e in let (y, ey, ky) = ks' p x ex in (y, ey, ky ∙ kx),
)

-- Where a new index node over an intermediate node `m` goes: between the index node `x` at `behind`
-- and its right neighbour, over the index node `down`, at an unused address.
pub record Spot (h : Heap) (height : Ptr → ℕ) (level : ℕ) (m : Mnode) (mem : Memory)
    (down behind : Ptr) (x : Inode) : Type 0 where
  pub here : h.inodes behind ≡ some x
  pub used : 0 < height behind
  pub front : x.key < m.key
  pub right : x.right ≢ null → (r : Inode) × (h.inodes x.right ≡ some r) × (m.key < r.key)
  pub lower :
      down ≢ null
      → (i : Inode) × (h.inodes down ≡ some i)
        × (i.key ≡ m.key)
        × (0 < height down)
        × (height down + 1 ≡ height behind)
  pub bottom : down ≡ null → height behind ≡ 1
  pub fits : height behind ≤ level
  pub live : place mem h ≢ null
  pub unused : h.inodes (place mem h) ≡ none

module _ (h : Heap) {height : Ptr → ℕ} {sentinel : Ptr} (whole : IsSkiplist height sentinel h)
    (level : ℕ) (p : Ptr) (m : Mnode) (under : h.mnodes p ≡ some m) (d : Node)
    (datum : h.nodes m.node ≡ some d) where
  -- The two writes to `level`.
  abbrev raised_mnodes : Store Mnode
  raised_mnodes = write h.mnodes p (some (record m { level = level }))

  abbrev raised_nodes : Bool → Store Node
  raised_nodes b = if b then write h.nodes m.node (some (record d { level = level })) else h.nodes

  abbrev pub lifted : Bool → Heap
  lifted b = record { nodes = raised_nodes b; inodes = h.inodes; mnodes = raised_mnodes }

  same-Maps : (b : Bool) (j : ℕ) (v : Word) → Maps (raised_nodes b) j v ↔ Maps h.nodes j v
  same-Maps false j v = (λ x. x, λ x. x)
  same-Maps true j v = relabel-Maps m.node d (record d { level = level }) datum refl refl j v

  keeps : (b : Bool) → KeepsKeys h.nodes (raised_nodes b)
  keeps false a n e = (n, e, refl)
  keeps true a n e = write-KeepsKeys h.nodes m.node d (record d { level = level }) datum refl a n e

  pub lifted-SameContents : (b : Bool) → SameContents h (lifted b)
  lifted-SameContents b = (
    same-Maps b,
    λ j c. (
      λ (a, x, e, k, mk). elim (ℕ_discrete p a) [
        | yes z ↦ (p, m, under, ground arith, ground arith)
        | no ne ↦ (a, x, ground arith, k, mk)
      ],
      λ (a, x, e, k, mk). elim (ℕ_discrete p a) [
        | yes z ↦ (p, record m { level = level }, ground arith, ground arith, ground arith)
        | no ne ↦ (a, x, ground arith, k, mk)
      ],
    ),
    keeps b,
  )

  module _ (up : m.level ≤ level) (front : m.key ≢ 0) where
    marked_up : IsSkiplist height sentinel (lifted false)
    marked_up =
        remarked-IsSkiplist h whole p m (record m { level = level }) under refl refl refl up
          λ z. absurd (front z)

    pub lifted-IsSkiplist : (b : Bool) → IsSkiplist height sentinel (lifted b)
    lifted-IsSkiplist false = marked_up
    lifted-IsSkiplist true = leveled-IsSkiplist (lifted false) m.node d level marked_up datum

    module _ (mem : Memory) (down behind : Ptr) (x : Inode)
        (spot : Spot h height level m mem down behind x) where
      abbrev pub made : Inode
      made = record { right = x.right; down = down; intermed = p; key = m.key }

      abbrev pub linked_inodes : Store Inode
      linked_inodes =
          write (write h.inodes (place mem h) (some made)) behind
            (some (record x { right = place mem h }))

      abbrev pub raised : Heap
      raised = record {
        nodes = raised_nodes (ltb d.level level);
        inodes = linked_inodes;
        mnodes = raised_mnodes;
      }

      apart : behind ≢ place mem h
      apart z = ground arith

      pub add_above-ok : add_above mem level down p behind h ≡ ok (place mem h) raised
      unfolding add_above inode_new load_inode load_mnode load_node store_inode store_mnode
          store_node
      add_above-ok = elim (Bool-cases (ltb d.level level)) [
        | inl t ↦
            rw
              (
                ==_false behind null (whole.index.live_inode behind x spot.here),
                spot.here,
                ==_false (place mem h) null spot.live,
                ==_false p null (whole.index.live_mnode p m under),
                under,
                ==_false (place mem h) behind (λ z. apart (sym z)),
                spot.here,
                ==_false behind null (whole.index.live_inode behind x spot.here),
                ==_false p null (whole.index.live_mnode p m under),
                under,
                ==_false m.node null (λ z. ground (arith, whole.layer.high m.node d datum)),
                datum,
              )
              (rw t refl)
        | inr f ↦
            rw
              (
                ==_false behind null (whole.index.live_inode behind x spot.here),
                spot.here,
                ==_false (place mem h) null spot.live,
                ==_false p null (whole.index.live_mnode p m under),
                under,
                ==_false (place mem h) behind (λ z. apart (sym z)),
                spot.here,
                ==_false behind null (whole.index.live_inode behind x spot.here),
                ==_false p null (whole.index.live_mnode p m under),
                under,
                ==_false m.node null (λ z. ground (arith, whole.layer.high m.node d datum)),
                datum,
              )
              (rw f refl)
      ]

      -- As high as the node in spot.front of it.
      abbrev pub raised_height : Ptr → ℕ
      raised_height a = if place mem h == a then height behind else height a

      pub raised_top : raised_height sentinel ≡ height sentinel
      raised_top = let (i, ei, ki) = whole.start in ground (arith, spot.unused)

      pub raised-IsSkiplist : IsSkiplist raised_height sentinel raised
      raised-IsSkiplist =
          let b = ltb d.level level in
          let new = place mem h in
          let base = lifted-IsSkiplist b in
          let right' : x.right ≢ null
              → (r : Inode) × (h.inodes x.right ≡ some r)
                × (m.key < r.key)
                × (height x.right ≡ height behind) =
            (λ ne.
              let (r, er, lt) = spot.right ne in
              let (r', er', _, row) = whole.index.right behind x spot.here spot.used ne in
              (r, er, lt, row)) in
          let under' : (y : Mnode) × (raised_mnodes p ≡ some y)
              × (y.key ≡ m.key)
              × (height behind ≤ y.level) =
            (record m { level = level }, ground arith, refl, spot.fits) in
          let index1 =
            added_inode-IsIndex (lifted b) base.index new made (height behind) spot.unused spot.live
              spot.used right' spot.lower spot.bottom under' in
          let i2 =
            relinked-IsIndex _ index1 behind x new (ground arith)
              (λ _. (made, ground arith, spot.front, ground arith)) in
          let (i, ei, ki) = whole.start in
          record {
            layer = base.layer;
            index = i2;
            start = elim (ℕ_discrete behind sentinel) [
              | yes z ↦ (record x { right = new }, ground arith, ground arith)
              | no ne ↦ (i, ground arith, ki)
            ];
            used = ground (arith, whole.used);
            top = λ j y ej ey. elim (ℕ_discrete behind sentinel) [
              | yes z ↦ base.top x y (ground arith) (ground arith) ∙ sym raised_top
              | no ne ↦ base.top j y (ground arith) ey ∙ sym raised_top
            ];
          }

      -- Index nodes: the new one, and no others.
      pub raised_new :
          (y : Inode) × (linked_inodes (place mem h) ≡ some y)
          × (y.key ≡ m.key)
          × (raised_height (place mem h) ≡ height behind)
      raised_new = (made, ground arith, refl, ground arith)

      pub raised_stays :
          {row : ℕ}
          → height behind ≡ row
          → (a : Ptr) (y : Inode) → h.inodes a ≡ some y
          → (z : Inode) × (linked_inodes a ≡ some z)
            × (z.key ≡ y.key)
            × (z.down ≡ y.down)
            × (z.intermed ≡ y.intermed)
            × (raised_height a ≡ height a)
            × (height a ≢ row → z.right ≡ y.right)
      raised_stays at a y e = elim (ℕ_discrete behind a) [
        | yes z ↦ (
          record x { right = place mem h },
          ground arith,
          ground (arith, spot.here),
          ground (arith, spot.here),
          ground (arith, spot.here),
          ground (arith, spot.unused),
          λ ne. ground arith,
        )
        | no differ ↦ (
          y,
          ground (arith, spot.unused),
          refl,
          refl,
          refl,
          ground (arith, spot.unused),
          λ ne. refl,
        )
      ]

      pub raised_unused : (a : Ptr) → h.inodes a ≡ none → a ≢ place mem h → linked_inodes a ≡ none
      raised_unused a e ne = ground arith

    -- Intermediate nodes: the one at `p` gets the level.
    pub raised_mnode :
        (a : Ptr) (y : Mnode)
        → h.mnodes a ≡ some y
        → (x : Mnode) × (raised_mnodes a ≡ some x)
          × (x.key ≡ y.key)
          × (x.next ≡ y.next)
          × (x.marked ≡ y.marked)
          × (((a ≡ p) × (x.level ≡ level)) ⊎ ((a ≢ p) × (x.level ≡ y.level)))
    raised_mnode a y e = elim (ℕ_discrete p a) [
      | yes z ↦ (
        record m { level = level },
        ground arith,
        ground arith,
        ground arith,
        ground arith,
        inl (sym z, refl),
      )
      | no ne ↦ (y, ground arith, refl, refl, refl, inr (λ z. ne (sym z), refl))
    ]

    pub raised_back :
        (a : Ptr) (x : Mnode)
        → raised_mnodes a ≡ some x
        → (y : Mnode) × (h.mnodes a ≡ some y) × (x.key ≡ y.key) × (x.next ≡ y.next)
    raised_back a x e = elim (ℕ_discrete p a) [
      | yes z ↦ (m, ground arith, ground arith, ground arith)
      | no ne ↦ (x, ground arith, refl, refl)
    ]
