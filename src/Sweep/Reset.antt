-- ===== src/Sweep/Reset.antt =====
-- One step of reset_index: the level of an intermediate node and of its data node.
use hosk.Base.{ℕ, ◌≡◌, refl, sym, ◌∙◌, ◌≢◌, ◌⊎◌, inl, inr, ◌↔◌, Bool, some, arith, ℕ_discrete}
use hosk.Enclave.{Ptr}
use hosk.Skiplist.{Node, Mnode, Heap, Word, ok, write, load_node, store_node}
use hosk.Skiplist.Upper.{load_mnode, store_mnode}
use hosk.Chain.{relabel-IsChain}
use hosk.Application.Layer.{IsLayer, Maps, relabel-IsLayer, KeepsKeys, write-KeepsKeys}
use hosk.Application.Values.{relabel-Maps}
use hosk.Index.{IsIndex, IsSkiplist, mnode_key, mnode_next}
use hosk.Helper.Update.{Tracks}
use hosk.Sweep.{set_levels}

-- The data layer and the intermediate layer without an index over them.
pub record IsFlat (h : Heap) : Type 0 where
  pub layer : IsLayer h.nodes
  pub index : IsIndex (λ _. 0) h

pub IsSkiplist-IsFlat :
    {height : Ptr → ℕ} {sentinel : Ptr} {h : Heap} → IsSkiplist height sentinel h → IsFlat h
IsSkiplist-IsFlat whole = record {
  layer = whole.layer;
  index = record {
    mnodes = whole.index.mnodes;
    live_mnode = whole.index.live_mnode;
    live_inode = whole.index.live_inode;
    right = λ p i e used. absurd (omega arith);
    down = λ p i e used. absurd (omega arith);
    bottom = λ p i e used. absurd (omega arith);
    intermed = λ p i e used. absurd (omega arith);
    node = whole.index.node;
  };
}

-- The same keys, values and marks, and each intermediate node where it was.
pub record SameKeys (h h' : Heap) : Type 0 where
  pub maps : (j : ℕ) (v : Word) → Maps h'.nodes j v ↔ Maps h.nodes j v
  pub tracks : (j : ℕ) (b : Bool) → Tracks h' j b ↔ Tracks h j b
  pub inodes : h'.inodes ≡ h.inodes
  pub keeps : KeepsKeys h.nodes h'.nodes

pub SameKeys-trans : (h h' h'' : Heap) → SameKeys h h' → SameKeys h' h'' → SameKeys h h''
SameKeys-trans h h' h'' s t = record {
  maps = λ j v. (λ x. (s.maps j v).0 ((t.maps j v).0 x), λ x. (t.maps j v).1 ((s.maps j v).1 x));
  tracks = λ j b.
      (λ x. (s.tracks j b).0 ((t.tracks j b).0 x), λ x. (t.tracks j b).1 ((s.tracks j b).1 x));
  inodes = t.inodes ∙ s.inodes;
  keeps = λ p n e.
      let (x, ex, kx) = s.keeps p n e in let (y, ey, ky) = t.keeps p x ex in (y, ey, ky ∙ kx);
}

module _ (h : Heap) (flat : IsFlat h) (l : ℕ) (p : Ptr) (m : Mnode) (here : h.mnodes p ≡ some m)
    (n : Node) (there : h.nodes m.node ≡ some n) where
  abbrev pub set_at : Heap
  set_at = record {
    nodes = write h.nodes m.node (some (record n { level = l }));
    inodes = h.inodes;
    mnodes = write h.mnodes p (some (record m { level = l }));
  }

  pub set_levels-ok : set_levels l p h ≡ ok tt set_at
  unfolding set_levels load_mnode store_mnode load_node store_node
  set_levels-ok =
      ground (arith, here, there, flat.index.live_mnode p m here, flat.layer.high m.node n there)

  -- What an intermediate node was.
  pub was :
      (a : Ptr) (x : Mnode)
      → set_at.mnodes a ≡ some x
      → (y : Mnode) × (h.mnodes a ≡ some y)
        × (y.key ≡ x.key)
        × (y.node ≡ x.node)
        × (y.marked ≡ x.marked)
        × (y.next ≡ x.next)
        × (((a ≡ p) × (x.level ≡ l)) ⊎ ((a ≢ p) × (x.level ≡ y.level)))
  was a x e = elim (ℕ_discrete p a) [
    | yes z ↦ (
      m,
      ground arith,
      ground arith,
      ground arith,
      ground arith,
      ground arith,
      inl (sym z, ground arith),
    )
    | no ne ↦ (x, ground arith, refl, refl, refl, refl, inr (λ z. ne (sym z), refl))
  ]

  pub becomes :
      (a : Ptr) (y : Mnode)
      → h.mnodes a ≡ some y
      → (x : Mnode) × (set_at.mnodes a ≡ some x)
        × (x.key ≡ y.key)
        × (x.next ≡ y.next)
        × (x.marked ≡ y.marked)
        × (((a ≡ p) × (x.level ≡ l)) ⊎ ((a ≢ p) × (x.level ≡ y.level)))
  becomes a y e = elim (ℕ_discrete p a) [
    | yes z ↦ (
      record m { level = l },
      ground arith,
      ground arith,
      ground arith,
      ground arith,
      inl (sym z, refl),
    )
    | no ne ↦ (y, ground arith, refl, refl, refl, inr (λ z. ne (sym z), refl))
  ]

  kept_node :
      (a : Ptr) (y : Node)
      → h.nodes a ≡ some y
      → (x : Node) × (set_at.nodes a ≡ some x) × (x.key ≡ y.key)
  kept_node a y e = elim (ℕ_discrete m.node a) [
    | yes z ↦ (record n { level = l }, ground arith, ground arith)
    | no ne ↦ (y, ground arith, refl)
  ]

  pub set_at-IsFlat : IsFlat set_at
  set_at-IsFlat = record {
    layer =
        relabel-IsLayer flat.layer m.node n (record n { level = l }) there refl refl
          (flat.layer.high m.node n there).1;
    index = record {
      mnodes =
          relabel-IsChain mnode_key mnode_next h.mnodes p m (record m { level = l }) here refl refl
            flat.index.mnodes;
      live_mnode = λ a x e. let (y, ey, _, _, _, _, _) = was a x e in flat.index.live_mnode a y ey;
      live_inode = flat.index.live_inode;
      right = λ a i e used. absurd (omega arith);
      down = λ a i e used. absurd (omega arith);
      bottom = λ a i e used. absurd (omega arith);
      intermed = λ a i e used. absurd (omega arith);
      node = λ a x e.
          let (y, ey, ky, ny, _, _, _) = was a x e in
          let (d, ed, kd) = flat.index.node a y ey in
          let (d', ed', kd') = kept_node y.node d ed in (d', ground arith, omega arith);
    };
  }

  pub set_at-SameKeys : SameKeys h set_at
  set_at-SameKeys = record {
    maps = relabel-Maps m.node n (record n { level = l }) there refl refl;
    tracks = λ j b. (
      λ (a, x, e, k, mk). let (y, ey, ky, _, my, _, _) = was a x e in (a, y, ey, ky ∙ k, my ∙ mk),
      λ (a, y, e, k, mk). let (x, ex, kx, _, mx, _) = becomes a y e in (a, x, ex, kx ∙ k, mx ∙ mk),
    );
    inodes = refl;
    keeps = write-KeepsKeys h.nodes m.node n (record n { level = l }) there refl;
  }
