-- ===== src/Index.antt =====
-- The upper layers of the skip list: when the index layer, the intermediate layer and the data layer
-- fit together.
pub mod Change
pub mod Inodes
pub mod Search
use hosk.Base.{ℕ, ◌+◌, ◌-◌, ◌≤◌, ◌<◌, ◌≡◌, ◌≢◌, some}
use hosk.Enclave.{Ptr}
use hosk.Skiplist.{Node, Inode, Mnode, Heap, null}
use hosk.Chain.{IsChain}
use hosk.Application.Layer.{IsLayer}

abbrev pub mnode_key : Mnode → ℕ
mnode_key m = m.key

abbrev pub mnode_next : Mnode → Ptr
mnode_next m = m.next

-- The index nodes in use are those with a height above 0: others are left behind by a change of the
-- sentinel. The node under another one is in use and one lower, the one to its right as high, and a
-- node over none has height 1. The level of the intermediate node under an index node is at least
-- the node's height, so that it is not swept away.
pub record IsIndex (height : Ptr → ℕ) (h : Heap) : Type 0 where
  pub mnodes : IsChain mnode_key mnode_next h.mnodes
  pub live_mnode : (p : Ptr) (m : Mnode) → h.mnodes p ≡ some m → p ≢ null
  pub live_inode : (p : Ptr) (i : Inode) → h.inodes p ≡ some i → p ≢ null
  pub right :
      (p : Ptr) (i : Inode)
      → h.inodes p ≡ some i
      → 0 < height p
      → i.right ≢ null
      → (r : Inode) × (h.inodes i.right ≡ some r) × (i.key < r.key) × (height i.right ≡ height p)
  pub down :
      (p : Ptr) (i : Inode)
      → h.inodes p ≡ some i
      → 0 < height p
      → i.down ≢ null
      → (d : Inode) × (h.inodes i.down ≡ some d)
        × (d.key ≡ i.key)
        × (0 < height i.down)
        × (height i.down + 1 ≡ height p)
  pub bottom :
      (p : Ptr) (i : Inode) → h.inodes p ≡ some i → 0 < height p → i.down ≡ null → height p ≡ 1
  pub intermed :
      (p : Ptr) (i : Inode)
      → h.inodes p ≡ some i
      → 0 < height p
      → (m : Mnode) × (h.mnodes i.intermed ≡ some m) × (m.key ≡ i.key) × (height p ≤ m.level)
  pub node :
      (p : Ptr) (m : Mnode)
      → h.mnodes p ≡ some m
      → (n : Node) × (h.nodes m.node ≡ some n) × (n.key ≡ m.key)

-- The three layers together, with the sentinel of the index layer at key 0, whose height is the level
-- of the first intermediate node.
pub record IsSkiplist (height : Ptr → ℕ) (sentinel : Ptr) (h : Heap) : Type 0 where
  pub layer : IsLayer h.nodes
  pub index : IsIndex height h
  pub start : (i : Inode) × (h.inodes sentinel ≡ some i) × (i.key ≡ 0)
  pub used : 0 < height sentinel
  pub top :
      (i : Inode) (m : Mnode)
      → h.inodes sentinel ≡ some i
      → h.mnodes i.intermed ≡ some m
      → m.level ≡ height sentinel
