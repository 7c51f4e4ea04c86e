-- ===== src/Sweep/Fresh.antt =====
-- The index layer that reset_index leaves: one new sentinel.
use mathlib.Core.Path.{subst}
use hosk.Base.{
  ℕ, ◌+◌, ◌<◌, ◌≡◌, refl, sym, ◌∙◌, ◌≢◌, ◌↔◌, Bool, inl, inr, some, none, arith, ◌==◌, ==_false,
  if◌then◌else◌,
}
use hosk.Enclave.{Ptr}
use hosk.Skiplist.{Node, Inode, Mnode, Heap, Run, Word, null, ok}
use hosk.Skiplist.Upper.{Memory, place, inode_new, store_inode}
use hosk.Index.{IsIndex, IsSkiplist}
use hosk.Index.Search.{load_mnode-ok, load_inode-ok}
use hosk.Index.Inodes.{height_with, added_inode-IsIndex}
use hosk.Application.Layer.{Maps, KeepsKeys}
use hosk.Helper.Update.{Tracks}
use hosk.Sweep.{reset_index}
use hosk.Sweep.Trav.{Below}
use hosk.Sweep.Reset.{
  IsFlat, IsSkiplist-IsFlat, SameKeys-trans, set_at, set_levels-ok, was, set_at-IsFlat,
  set_at-SameKeys, becomes,
}
use hosk.Sweep.Clear.{reset_levels-Clears, Cleared}

-- The allocator gives an address where no index node is, whatever the other two layers are.
abbrev pub HasRoom : Memory → Heap → Type 0
HasRoom mem h =
    (x : Heap) → x.inodes ≡ h.inodes → (place mem x ≢ null) × (h.inodes (place mem x) ≡ none)

pub inode_new-ok :
    (mem : Memory) (right down intermed : Ptr) (h : Heap) {height : Ptr → ℕ}
    → IsIndex height h
    → place mem h ≢ null
    → (m : Mnode) → h.mnodes intermed ≡ some m
    → inode_new mem right down intermed h
      ≡ ok (place mem h) (record h {
        inodes = λ a.
            if place mem h == a
            then some (record { right = right; down = down; intermed = intermed; key = m.key })
            else h.inodes a;
      })
unfolding inode_new store_inode
inode_new-ok mem right down intermed h index ne m e =
    rw (==_false (place mem h) null ne, load_mnode-ok h index intermed m e) refl

-- Every node has the level that the pass gives it.
abbrev pub Leveled : Heap → Heap → Type 0
Leveled h h' =
    (a : Ptr) (y : Mnode)
    → h.mnodes a ≡ some y
    → (x : Mnode) × (h'.mnodes a ≡ some x)
      × (x.key ≡ y.key)
      × (x.level ≡ (if y.key == 0 then 1 else 0))

Cleared-Leveled :
    (h : Heap) (flat : IsFlat h) (p : Ptr) (m : Mnode) (here : h.mnodes p ≡ some m) (d : Node)
    (there : h.nodes m.node ≡ some d) (h' : Heap)
    → m.key ≡ 0
    → Cleared 0 (set_at h flat 1 p m here d there) h'
    → Leveled h h'
Cleared-Leveled h flat p m here d there h' zero_key cleared a y e =
    let (x, ex, kx, _, _, which) = becomes h flat 1 p m here d there a y e in
    let (z, ez, kz, _, above, upto) = cleared a x ex in
    (
      z,
      ez,
      omega arith,
      elim which [
        | inl (at, level) ↦ ground (arith, upto)
        | inr (off, same) ↦
            let ne : y.key ≢ 0 =
              λ k. off (flat.index.mnodes.unique a p y m e here (k ∙ sym zero_key)) in
            rw (==_false y.key 0 ne) (above (omega arith))
      ],
    )

-- A skip list with the same contents, whose index is the sentinel.
abbrev pub Resets : Heap → Run Ptr → Type 0
Resets h r =
    (height : Ptr → ℕ) × (new : Ptr) × (h' : Heap) × (i : Inode) × (r ≡ ok new h')
    × IsSkiplist height new h'
    × (height new ≡ 1)
    × (h'.inodes new ≡ some i)
    × (i.right ≡ null)
    × (i.down ≡ null)
    × ((j : ℕ) (v : Word) → Maps h'.nodes j v ↔ Maps h.nodes j v)
    × ((j : ℕ) (b : Bool) → Tracks h' j b ↔ Tracks h j b)
    × KeepsKeys h.nodes h'.nodes
    × Leveled h h'

-- On a skip list with all keys below a bound, with more fuel than the bound, and an allocator that
-- has room for an index node: reset_index ends with a new sentinel, which has no node to its right
-- and none below; the layers fit together under it, the map, the marks and the keys of the data
-- nodes are as before, the first
-- intermediate node has level 1 and all the others have level 0.
pub reset_index-Resets :
    (mem : Memory) (fuel bound : ℕ) {height : Ptr → ℕ} {sentinel : Ptr} (h : Heap)
    → IsSkiplist height sentinel h
    → Below bound h
    → bound + 1 < fuel
    → HasRoom mem h
    → Resets h (reset_index mem fuel sentinel h)
unfolding reset_index
reset_index-Resets mem fuel bound {height} {sentinel} h whole below enough room =
    let flat = IsSkiplist-IsFlat whole in
    let (i, ei, zero_key) = whole.start in
    let (m, em, km, up) = whole.index.intermed sentinel i ei whole.used in
    let (d, ed, _) = whole.index.node i.intermed m em in
    let h1 = set_at h flat 1 i.intermed m em d ed in
    let flat1 : IsFlat h1 = set_at-IsFlat h flat 1 i.intermed m em d ed in
    let m' : Mnode = record m { level = 1 } in
    let here1 : h1.mnodes i.intermed ≡ some m' = ground arith in
    let below1 : Below bound h1 = (λ a x ex.
      let (y, ey, ky, _, _, _, _) = was h flat 1 i.intermed m em d ed a x ex in
      omega (arith, below a y ey)) in
    let (h2, run, flat2, same, cleared) =
      reset_levels-Clears fuel bound h1 i.intermed m' flat1 below1 here1 (omega arith)
        (λ x ex. omega (arith, below1 m.next x ex)) in
    let (start, estart, kstart, _, _, level) = cleared i.intermed m' here1 in
    let (ne, unused) = room h2 same.inodes in
    let made : Inode = record {
      right = null;
      down = null;
      intermed = i.intermed;
      key = start.key;
    } in
    let new = place mem h2 in
    let unused2 : h2.inodes new ≡ none = rw same.inodes unused in
    let index3 =
      added_inode-IsIndex h2 flat2.index new made 1 unused2 ne (omega arith) (λ z. absurd (z refl))
        (λ z. absurd (z refl)) (λ _. refl)
        (start, estart, refl, omega (arith, level (omega arith))) in
    let all = SameKeys-trans h h1 h2 (set_at-SameKeys h flat 1 i.intermed m em d ed) same in
    (
      height_with h2 flat2.index new made 1 unused2 ne (omega arith) (λ z. absurd (z refl))
          (λ z. absurd (z refl)) (λ _. refl)
          (start, estart, refl, omega (arith, level (omega arith))),
      new,
      _,
      made,
      rw
          (
            load_inode-ok h whole.index sentinel i ei,
            set_levels-ok h flat 1 i.intermed m em d ed,
            load_mnode-ok h1 flat1.index i.intermed m' here1,
            run,
            load_inode-ok h2 flat2.index sentinel i (rw same.inodes ei),
          )
          (inode_new-ok mem null null i.intermed h2 flat2.index ne start estart),
      record {
        layer = flat2.layer;
        index = index3;
        start = (made, ground arith, omega arith);
        used = ground arith;
        top = λ x y ex ey. ground (arith, level (omega arith), estart);
      },
      ground arith,
      ground arith,
      refl,
      refl,
      all.maps,
      all.tracks,
      all.keeps,
      Cleared-Leveled h flat i.intermed m em d ed h2 (km ∙ zero_key)
          (subst (λ k. Cleared k h1 h2) (km ∙ zero_key) cleared),
    )
