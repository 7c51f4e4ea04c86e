-- ===== src/Index/Change.antt =====
-- Changes of one layer that keep the three layers together.
use hosk.Base.{ℕ, ◌≤◌, ◌≡◌, refl, ◌∙◌, ◌≢◌, some, arith, ℕ_discrete}
use hosk.Enclave.{Ptr}
use hosk.Skiplist.{Node, Mnode, Store, Heap, null, write}
use hosk.Chain.{IsChain}
use hosk.Chain.{relabel-IsChain}
use hosk.Application.Layer.{relabel-IsLayer, write-KeepsKeys, IsLayer, KeepsKeys}
use hosk.Index.{IsIndex, IsSkiplist, mnode_key, mnode_next}

-- Another intermediate layer under the same index, where no level goes down.
pub mnodes-IsIndex :
    {height : Ptr → ℕ} (h : Heap) (index : IsIndex height h) (s : Store Mnode)
    → IsChain mnode_key mnode_next s
    → ((p : Ptr) (m : Mnode)
        → s p ≡ some m
        → (p ≢ null) × ((n : Node) × (h.nodes m.node ≡ some n) × (n.key ≡ m.key)))
    → ((p : Ptr) (m : Mnode)
        → h.mnodes p ≡ some m
        → 1 ≤ m.level
        → (x : Mnode) × (s p ≡ some x) × (x.key ≡ m.key) × (m.level ≤ x.level))
    → IsIndex height (record h { mnodes = s })
mnodes-IsIndex h index s chain good keeps = record {
  mnodes = chain;
  live_mnode = λ p m e. (good p m e).0;
  live_inode = index.live_inode;
  right = index.right;
  down = index.down;
  bottom = index.bottom;
  intermed = λ p i e used.
      let (m, em, km, up) = index.intermed p i e used in
      let (x, ex, kx, up') = keeps i.intermed m em (omega arith) in (x, ex, kx ∙ km, omega arith);
  node = λ p m e. (good p m e).1;
}

module _ {height : Ptr → ℕ} {sentinel : Ptr} (h : Heap) (whole : IsSkiplist height sentinel h)
    (s : Store Mnode) where
  abbrev pub with_mnodes : Heap
  with_mnodes = record h { mnodes = s }

  -- Another intermediate layer that keeps the keys of nodes with a level fits under the same index.
  pub mnodes-IsSkiplist :
      IsChain mnode_key mnode_next s
      → ((p : Ptr) (m : Mnode)
          → s p ≡ some m
          → (p ≢ null) × ((n : Node) × (h.nodes m.node ≡ some n) × (n.key ≡ m.key)))
      → ((p : Ptr) (m : Mnode)
          → h.mnodes p ≡ some m
          → 1 ≤ m.level
          → (x : Mnode) × (s p ≡ some x)
            × (x.key ≡ m.key)
            × (m.level ≤ x.level)
            × (m.key ≡ 0 → x.level ≡ m.level))
      → IsSkiplist height sentinel with_mnodes
  mnodes-IsSkiplist chain good keeps = record {
    layer = whole.layer;
    index =
        mnodes-IsIndex h whole.index s chain good
          λ p m e some_level. let (x, ex, kx, up, _) = keeps p m e some_level in (x, ex, kx, up);
    start = whole.start;
    used = whole.used;
    top = λ i x ei ex.
        let (i0, e0, k0) = whole.start in
        let (m, em, km, up) = whole.index.intermed sentinel i ei whole.used in
        let used = whole.used in
        let (y, ey, ky, _, same) = keeps i.intermed m em (omega arith) in
        let zero_key : m.key ≡ 0 = ground arith in
        let level = same zero_key in let high = whole.top i m ei em in ground arith;
  }

-- Another data layer that keeps its nodes fits under the same upper layers.
module _ {height : Ptr → ℕ} {sentinel : Ptr} {h : Heap} (whole : IsSkiplist height sentinel h)
    (s : Store Node) (layer : IsLayer s) (keeps : KeepsKeys h.nodes s) where
  abbrev pub with_nodes : Heap
  with_nodes = record h { nodes = s }

  pub nodes-IsSkiplist : IsSkiplist height sentinel with_nodes
  nodes-IsSkiplist = record {
    layer = layer;
    index = record {
      mnodes = whole.index.mnodes;
      live_mnode = whole.index.live_mnode;
      live_inode = whole.index.live_inode;
      right = whole.index.right;
      down = whole.index.down;
      bottom = whole.index.bottom;
      intermed = whole.index.intermed;
      node = λ p m e.
          let (n, en, kn) = whole.index.node p m e in
          let (x, ex, kx) = keeps m.node n en in (x, ex, kx ∙ kn);
    };
    start = whole.start;
    used = whole.used;
    top = whole.top;
  }

-- A write to `level` or `marked` of an intermediate node.
module _ {height : Ptr → ℕ} {sentinel : Ptr} (h : Heap) (whole : IsSkiplist height sentinel h)
    (q : Ptr) (m m' : Mnode) (here : h.mnodes q ≡ some m) (same_key : m'.key ≡ m.key)
    (same_next : m'.next ≡ m.next) (same_node : m'.node ≡ m.node) (up : m.level ≤ m'.level)
    (first : m.key ≡ 0 → m'.level ≡ m.level) where
  abbrev remarked : Store Mnode
  remarked = write h.mnodes q (some m')

  good_remarked :
      (p : Ptr) (x : Mnode)
      → remarked p ≡ some x
      → (p ≢ null) × ((n : Node) × (h.nodes x.node ≡ some n) × (n.key ≡ x.key))
  good_remarked p x e = elim (ℕ_discrete q p) [
    | yes z ↦
        let (n, en, kn) = whole.index.node q m here in
        (ground (arith, whole.index.live_mnode q m here), (n, ground arith, ground arith))
    | no ne ↦
        let old : h.mnodes p ≡ some x = ground arith in
        (whole.index.live_mnode p x old, whole.index.node p x old)
  ]

  keeps_remarked :
      (p : Ptr) (x : Mnode)
      → h.mnodes p ≡ some x
      → 1 ≤ x.level
      → (y : Mnode) × (remarked p ≡ some y)
        × (y.key ≡ x.key)
        × (x.level ≤ y.level)
        × (x.key ≡ 0 → y.level ≡ x.level)
  keeps_remarked p x e high = elim (ℕ_discrete q p) [
    | yes z ↦ (
      m',
      ground arith,
      ground arith,
      ground arith,
      λ w. let k : m.key ≡ 0 = ground arith in let same = first k in ground arith,
    )
    | no ne ↦ (x, ground arith, refl, omega arith, λ _. refl)
  ]

  pub remarked-IsSkiplist : IsSkiplist height sentinel (with_mnodes h whole remarked)
  remarked-IsSkiplist =
      mnodes-IsSkiplist h whole remarked
        (relabel-IsChain mnode_key mnode_next h.mnodes q m m' here same_key same_next
          whole.index.mnodes)
        good_remarked keeps_remarked

-- A write to `level` of a data node.
pub leveled-IsSkiplist :
    {height : Ptr → ℕ} {sentinel : Ptr} (h : Heap) (p : Ptr) (n : Node) (l : ℕ)
    → IsSkiplist height sentinel h
    → h.nodes p ≡ some n
    → IsSkiplist height sentinel
        (record h { nodes = write h.nodes p (some (record n { level = l })) })
leveled-IsSkiplist h p n l whole here =
    let n' : Node = record n { level = l } in
    nodes-IsSkiplist whole (write h.nodes p (some n'))
      (relabel-IsLayer whole.layer p n n' here refl refl (whole.layer.high p n here).1)
      (write-KeepsKeys h.nodes p n n' here refl)
