-- ===== src/Levels/Bottom.antt =====
-- One round of bg_raise_mlevel that raises a node.
use hosk.Base.{sym, ◌+◌, ◌∙◌, ℕ, ◌≤◌, ◌<◌, ◌≡◌, refl, ◌≢◌, some, none, arith, ltb}
use hosk.Enclave.{Ptr}
use hosk.Skiplist.{Inode, Mnode, Heap, null, ok}
use hosk.Skiplist.Upper.{Memory, place}
use hosk.Index.{IsSkiplist}
use hosk.Levels.{add_above}
use hosk.Levels.Above.{Between}
use hosk.Levels.Add.{
  Spot, SameContents, lifted-SameContents, add_above-ok, raised, raised_height, raised-IsSkiplist,
  raised_top, raised_new, raised_unused, raised_stays, raised_mnode, raised_back,
}
use hosk.Levels.Raise.{Lifts}

-- Every index node is still there, as high as it was and over the same nodes; those of another row are
-- as they were.
abbrev pub Stays : ℕ → (Ptr → ℕ) → (Ptr → ℕ) → Heap → Heap → Type 0
Stays row height height' h h' =
    (a : Ptr) (y : Inode)
    → h.inodes a ≡ some y
    → (z : Inode) × (h'.inodes a ≡ some z)
      × (z.key ≡ y.key)
      × (z.down ≡ y.down)
      × (z.intermed ≡ y.intermed)
      × (height' a ≡ height a)
      × (height a ≢ row → z.right ≡ y.right)

pub Stays-refl : (row : ℕ) (height : Ptr → ℕ) (h : Heap) → Stays row height height h h
Stays-refl row height h a y e = (y, e, refl, refl, refl, refl, λ _. refl)

pub Stays-trans :
    (row : ℕ) (height height' height'' : Ptr → ℕ) (h h' h'' : Heap)
    → Stays row height height' h h'
    → Stays row height' height'' h' h''
    → Stays row height height'' h h''
Stays-trans row height height' height'' h h' h'' s t a y e =
    let (z, ez, kz, dz, iz, hz, rz) = s a y e in
    let (w, ew, kw, dw, iw, hw, rw_) = t a z ez in
    (w, ew, kw ∙ kz, dw ∙ dz, iw ∙ iz, hw ∙ hz, λ ne. rw_ (λ q. ne (sym hz ∙ q)) ∙ rz ne)

-- What a round that raises `node` to `level` comes to: a new index node in front of the next round.
pub record Raised (mem : Memory) (level : ℕ) (old : Ptr → ℕ) (sentinel : Ptr) (h : Heap)
    (node : Ptr) (m : Mnode) (h' : Heap) : Type 0 where
  pub height : Ptr → ℕ
  pub whole : IsSkiplist height sentinel h'
  pub top : height sentinel ≡ old sentinel
  pub same : SameContents h h'
  pub lifts : Lifts level h h'
  pub back :
      (a : Ptr) (x : Mnode)
      → h'.mnodes a ≡ some x
      → (y : Mnode) × (h.mnodes a ≡ some y) × (x.key ≡ y.key) × (x.next ≡ y.next)
  pub reached : (y : Mnode) → h'.mnodes node ≡ some y → y.level ≡ level
  pub new :
      (y : Inode) × (h'.inodes (place mem h) ≡ some y)
      × (y.key ≡ m.key)
      × (height (place mem h) ≡ level)
  pub unused : (a : Ptr) → h.inodes a ≡ none → a ≢ place mem h → h'.inodes a ≡ none
  pub stays : Stays level old height h h'

module _ (mem : Memory) (h : Heap) {height : Ptr → ℕ} {sentinel : Ptr}
    (whole : IsSkiplist height sentinel h) (level : ℕ) {node : Ptr} {m : Mnode}
    (here : h.mnodes node ≡ some m) (low : m.level < level) (live : place mem h ≢ null)
    (unused : h.inodes (place mem h) ≡ none) where
  -- Its right neighbour is behind `node`: an index node of the row over `node` would give it a level.
  beyond :
      {above behind : Ptr} {w : Inode}
      → Between h whole.index m.key level above behind w
      → w.right ≢ null
      → (r : Inode) × (h.inodes w.right ≡ some r) × (m.key < r.key)
  beyond {above} {behind} {w} between ne =
      let (r, er, _, row) = whole.index.right behind w between.here between.used ne in
      let used_r : 0 < height w.right = omega (arith, between.level) in
      let (y, ey, ky, up) = whole.index.intermed w.right r er used_r in
      let le : m.key ≤ r.key = between.beyond r (ground (arith, between.leads)) in
      let differ : m.key ≢ r.key = (λ z.
        ground (arith, between.level, whole.index.mnodes.unique node r.intermed m y here ey)) in
      (r, er, omega arith)

  pub round :
      (above behind down : Ptr) (w : Inode)
      → Between h whole.index m.key level above behind w
      → (down ≢ null
          → (i : Inode) × (h.inodes down ≡ some i)
            × (i.key ≡ m.key)
            × (0 < height down)
            × (height down + 1 ≡ level))
      → (down ≡ null → level ≡ 1)
      → (h' : Heap) × (add_above mem level down node behind h ≡ ok (place mem h) h')
        × Raised mem level height sentinel h node m h'
  round above behind down w between lower bottom =
      let (d, ed, _) = whole.index.node node m here in
      let row = between.level in
      let spot : Spot h height level m mem down behind w = record {
        here = between.here;
        used = between.used;
        front = between.front;
        right = beyond between;
        lower = λ ne. let (i, ei, ki, used, lt) = lower ne in (i, ei, ki, used, omega arith);
        bottom = λ z. omega (arith, bottom z);
        fits = omega arith;
        live = live;
        unused = unused;
      } in
      let up : m.level ≤ level = omega arith in
      let nz : m.key ≢ 0 = (λ z. omega (arith, between.front)) in
      (
        raised h whole level node m here d ed up nz mem down behind w spot,
        add_above-ok h whole level node m here d ed up nz mem down behind w spot,
        record {
          height = raised_height h whole level node m here d ed up nz mem down behind w spot;
          whole = raised-IsSkiplist h whole level node m here d ed up nz mem down behind w spot;
          top = raised_top h whole level node m here d ed up nz mem down behind w spot;
          same = lifted-SameContents h whole level node m here d ed (ltb d.level level);
          lifts = λ a y e.
              let (x, ex, kx, nx, mx, lx) =
                raised_mnode h whole level node m here d ed up nz a y e in
              (x, ex, kx, nx, mx, ground (arith, here));
          back = raised_back h whole level node m here d ed up nz;
          reached = λ y e. ground arith;
          new =
              let (y, ey, ky, hy) =
                raised_new h whole level node m here d ed up nz mem down behind w spot in
              (y, ey, ky, hy ∙ row);
          unused = raised_unused h whole level node m here d ed up nz mem down behind w spot;
          stays = λ a y e.
              raised_stays h whole level node m here d ed up nz mem down behind w spot row a y e;
        },
      )

-- The same without the right neighbours.
abbrev pub Keeps : (Ptr → ℕ) → (Ptr → ℕ) → Heap → Heap → Type 0
Keeps height height' h h' =
    (a : Ptr) (y : Inode)
    → h.inodes a ≡ some y
    → (z : Inode) × (h'.inodes a ≡ some z)
      × (z.key ≡ y.key)
      × (z.down ≡ y.down)
      × (z.intermed ≡ y.intermed)
      × (height' a ≡ height a)

pub Stays-Keeps :
    (row : ℕ) (height height' : Ptr → ℕ) (h h' : Heap)
    → Stays row height height' h h'
    → Keeps height height' h h'
Stays-Keeps row height height' h h' stays a y e =
    let (z, ez, kz, dz, iz, hz, _) = stays a y e in (z, ez, kz, dz, iz, hz)

pub Keeps-trans :
    (height height' height'' : Ptr → ℕ) (h h' h'' : Heap)
    → Keeps height height' h h'
    → Keeps height' height'' h' h''
    → Keeps height height'' h h''
Keeps-trans height height' height'' h h' h'' s t a y e =
    let (z, ez, kz, dz, iz, hz) = s a y e in
    let (w, ew, kw, dw, iw, hw) = t a z ez in (w, ew, kw ∙ kz, dw ∙ dz, iw ∙ iz, hw ∙ hz)
