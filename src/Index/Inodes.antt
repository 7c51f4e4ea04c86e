-- ===== src/Index/Inodes.antt =====
-- New index nodes: where one may be added, and how it is linked into its level.
use hosk.Base.{
  ℕ, ◌+◌, ◌≤◌, ◌<◌, ◌≡◌, refl, ◌∙◌, ◌≢◌, some, none, arith, ℕ_discrete, ◌==◌, if◌then◌else◌,
}
use hosk.Enclave.{Ptr}
use hosk.Skiplist.{Inode, Mnode, Heap, null, write}
use hosk.Index.{IsIndex, IsSkiplist}

module _ {height : Ptr → ℕ} (h : Heap) (index : IsIndex height h) where
  -- What a node that an index node points to has to be.
  abbrev pub Right : ℕ → ℕ → Ptr → Type 0
  Right key level p = (r : Inode) × (h.inodes p ≡ some r) × (key < r.key) × (height p ≡ level)

  abbrev pub Down : ℕ → ℕ → Ptr → Type 0
  Down key level p =
      (d : Inode) × (h.inodes p ≡ some d) × (d.key ≡ key) × (0 < height p) × (height p + 1 ≡ level)

  abbrev pub Under : ℕ → ℕ → Ptr → Type 0
  Under key level p = (m : Mnode) × (h.mnodes p ≡ some m) × (m.key ≡ key) × (level ≤ m.level)

  module _ (p : Ptr) (i : Inode) (level : ℕ) (unused : h.inodes p ≡ none) (live : p ≢ null)
      (some_level : 0 < level) (right : i.right ≢ null → Right i.key level i.right)
      (down : i.down ≢ null → Down i.key level i.down) (bottom : i.down ≡ null → level ≡ 1)
      (under : Under i.key level i.intermed) where
    abbrev pub height_with : Ptr → ℕ
    height_with a = if p == a then level else height a

    abbrev pub added_inode : Heap
    added_inode = record h { inodes = write h.inodes p (some i) }

    right_with :
        (a : Ptr) (x : Inode)
        → added_inode.inodes a ≡ some x
        → 0 < height_with a
        → x.right ≢ null
        → (r : Inode) × (added_inode.inodes x.right ≡ some r)
          × (x.key < r.key)
          × (height_with x.right ≡ height_with a)
    right_with a x e used ne = elim (ℕ_discrete p a) [
      | yes z ↦
          let (r, er, far, le) = right (ground arith) in
          (r, ground arith, ground arith, ground arith)
      | no differ ↦
          let (r, er, far, le) = index.right a x (ground arith) (ground arith) ne in
          (r, ground arith, far, ground arith)
    ]

    down_with :
        (a : Ptr) (x : Inode)
        → added_inode.inodes a ≡ some x
        → 0 < height_with a
        → x.down ≢ null
        → (d : Inode) × (added_inode.inodes x.down ≡ some d)
          × (d.key ≡ x.key)
          × (0 < height_with x.down)
          × (height_with x.down + 1 ≡ height_with a)
    down_with a x e used ne = elim (ℕ_discrete p a) [
      | yes z ↦
          let (d, ed, same, used_d, lt) = down (ground arith) in
          (d, ground arith, ground arith, ground arith, ground arith)
      | no differ ↦
          let (d, ed, same, used_d, lt) = index.down a x (ground arith) (ground arith) ne in
          (d, ground arith, same, ground arith, ground arith)
    ]

    under_with :
        (a : Ptr) (x : Inode)
        → added_inode.inodes a ≡ some x
        → 0 < height_with a
        → (m : Mnode) × (h.mnodes x.intermed ≡ some m) × (m.key ≡ x.key) × (height_with a ≤ m.level)
    under_with a x e used = elim (ℕ_discrete p a) [
      | yes z ↦ let (m, em, km, up) = under in (m, ground arith, ground arith, ground arith)
      | no differ ↦
          let (m, em, km, up) = index.intermed a x (ground arith) (ground arith) in
          (m, em, km, ground arith)
    ]

    pub added_inode-IsIndex : IsIndex height_with added_inode
    added_inode-IsIndex = record {
      mnodes = index.mnodes;
      live_mnode = index.live_mnode;
      live_inode = λ a x e. ground (arith, index.live_inode a x);
      right = right_with;
      down = down_with;
      bottom = λ a x e used z. ground (arith, index.bottom a x, bottom);
      intermed = under_with;
      node = index.node;
    }

  -- An index node in use gets another right neighbour.
  module _ (a : Ptr) (x : Inode) (new : Ptr) (here : h.inodes a ≡ some x)
      (right : new ≢ null → Right x.key (height a) new) where
    abbrev pub relinked : Heap
    relinked = record h { inodes = write h.inodes a (some (record x { right = new })) }

    -- Every index node is still there, with its key.
    kept :
        (b : Ptr) (y : Inode)
        → h.inodes b ≡ some y
        → (z : Inode) × (relinked.inodes b ≡ some z) × (z.key ≡ y.key)
    kept b y e = elim (ℕ_discrete a b) [
      | yes z ↦ (record x { right = new }, ground arith, ground arith)
      | no ne ↦ (y, ground arith, refl)
    ]

    pub relinked-IsIndex : IsIndex height relinked
    relinked-IsIndex = record {
      mnodes = index.mnodes;
      live_mnode = index.live_mnode;
      live_inode = λ b y e. ground (arith, index.live_inode b y, index.live_inode a x);
      right = λ b y e used ne. elim (ℕ_discrete a b) [
        | yes z ↦
            let (r, er, far, le) = right (ground arith) in
            let (r', er', kr) = kept new r er in (r', ground arith, ground arith, ground arith)
        | no differ ↦
            let (r, er, far, le) = index.right b y (ground arith) used ne in
            let (r', er', kr) = kept y.right r er in (r', er', omega arith, le)
      ];
      down = λ b y e used ne. elim (ℕ_discrete a b) [
        | yes z ↦
            let (d, ed, same, used_d, lt) = index.down a x here (ground arith) (ground arith) in
            let (d', ed', kd) = kept x.down d ed in
            (d', ground arith, ground arith, ground arith, ground arith)
        | no differ ↦
            let (d, ed, same, used_d, lt) = index.down b y (ground arith) used ne in
            let (d', ed', kd) = kept y.down d ed in (d', ed', kd ∙ same, used_d, lt)
      ];
      bottom = λ b y e used z. ground (arith, index.bottom b y, index.bottom a x);
      intermed = λ b y e used. elim (ℕ_discrete a b) [
        | yes z ↦
            let (m, em, km, up) = index.intermed a x here (ground arith) in
            (m, ground arith, ground arith, ground arith)
        | no differ ↦ index.intermed b y (ground arith) used
      ];
      node = index.node;
    }

-- The three layers with it.
pub relinked-IsSkiplist :
    {height : Ptr → ℕ} {sentinel : Ptr} (h : Heap) (whole : IsSkiplist height sentinel h) (a : Ptr)
    (x : Inode) (new : Ptr) (here : h.inodes a ≡ some x)
    (right : new ≢ null → Right h whole.index x.key (height a) new)
    → IsSkiplist height sentinel (relinked h whole.index a x new here right)
relinked-IsSkiplist {height} {sentinel} h whole a x new here right =
    let (i, ei, ki) = whole.start in
    record {
      layer = whole.layer;
      index = relinked-IsIndex h whole.index a x new here right;
      start = elim (ℕ_discrete a sentinel) [
        | yes z ↦ (record x { right = new }, ground arith, ground arith)
        | no ne ↦ (i, ground arith, ki)
      ];
      used = whole.used;
      top = λ j y ej ey. elim (ℕ_discrete a sentinel) [
        | yes z ↦ whole.top x y (ground arith) (ground arith)
        | no ne ↦ whole.top j y (ground arith) ey
      ];
    }
