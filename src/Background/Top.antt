-- ===== src/Background/Top.antt =====
-- A new level of the index: the new sentinel over the old one.
use hosk.Levels.Rounds.{take_room}
use hosk.Levels.Raise.{Left, Rooms, used_at}
use hosk.Sweep.Fresh.{inode_new-ok}
use hosk.Base.{
  ℕ, ◌+◌, ◌%◌, ◌^◌, ◌<◌, ◌≡◌, refl, sym, ◌∙◌, ◌≢◌, inl, inr, true, false, some, none, arith,
  ℕ_discrete, Bool-cases, ==_true, ==_false, ltb, Bool, ◌==◌, if◌then◌else◌,
}
use hosk.Enclave.{Ptr}
use hosk.Skiplist.{Node, Inode, Mnode, Heap, Run, null, ok, write, load_node, store_node}
use hosk.Skiplist.Upper.{Memory, place, load_inode, load_mnode, store_mnode, inode_new}
use hosk.Chain.{relabel-IsChain}
use hosk.Index.{IsIndex, IsSkiplist, mnode_key, mnode_next}
use hosk.Index.Change.{mnodes-IsIndex, leveled-IsSkiplist}
use hosk.Index.Inodes.{added_inode-IsIndex}
use hosk.Index.Search.{load_inode-ok}
use hosk.Levels.Add.{SameContents, lifted, lifted-SameContents}
use hosk.Levels.Bottom.{Keeps}
use hosk.Background.{add_level}

add_level_run :
    (mem : Memory) (sentinel : Ptr) (tall : ℕ) {h h1 h2 h3 : Heap} {new : Ptr} {i t : Inode}
    {m : Mnode} {d : Node}
    → load_inode sentinel h ≡ ok i h
    → inode_new mem null sentinel i.intermed h ≡ ok new h1
    → load_inode new h1 ≡ ok t h1
    → load_mnode t.intermed h1 ≡ ok m h1
    → (m.level + 1) % 2 ^ 32 ≡ tall
    → store_mnode t.intermed (record m { level = tall }) h1 ≡ ok tt h2
    → load_node m.node h2 ≡ ok d h2
    → (if ltb d.level tall then store_node m.node (record d { level = tall }) else ok tt) h2
      ≡ ok tt h3
    → add_level mem sentinel h ≡ ok new h3
unfolding add_level
add_level_run mem sentinel tall e1 e2 e3 e4 e5 e6 e7 e8 = rw (e1, e2, e3, e4, e5, e6, e7, e8) refl

module _ (mem : Memory) (h : Heap) {height : Ptr → ℕ} {sentinel : Ptr}
    (whole : IsSkiplist height sentinel h) (i : Inode) (start : h.inodes sentinel ≡ some i)
    (zero_key : i.key ≡ 0) (m : Mnode) (under : h.mnodes i.intermed ≡ some m) (km : m.key ≡ i.key)
    (level : m.level ≡ height sentinel) (d : Node) (datum : h.nodes m.node ≡ some d)
    (live : place mem h ≢ null) (unused : h.inodes (place mem h) ≡ none) where
  abbrev pub tall : ℕ
  tall = height sentinel + 1

  abbrev pub m' : Mnode
  m' = record m { level = tall }

  -- The heap with the two levels written.
  abbrev pub marked : Bool → Heap
  marked = lifted h whole tall i.intermed m under d datum

  data_level : (b : Bool) → IsSkiplist height sentinel (record h { nodes = (marked b).nodes })
  data_level false = whole
  data_level true = leveled-IsSkiplist h m.node d tall whole datum

  marked-IsIndex : (b : Bool) → IsIndex height (marked b)
  marked-IsIndex b =
      let base = data_level b in
      mnodes-IsIndex (record h { nodes = (marked b).nodes }) base.index (marked b).mnodes
        (relabel-IsChain mnode_key mnode_next h.mnodes i.intermed m m' under refl refl
          whole.index.mnodes)
        (λ a x e. elim (ℕ_discrete i.intermed a) [
          | yes z ↦
              let (n, en, kn) = base.index.node i.intermed m under in
              (whole.index.live_mnode a m (ground arith), (n, ground arith, ground arith))
          | no ne ↦
              let old : h.mnodes a ≡ some x = ground arith in
              (whole.index.live_mnode a x old, base.index.node a x old)
        ])
        (λ a x e some_level. elim (ℕ_discrete i.intermed a) [
          | yes z ↦ (m', ground arith, ground arith, ground (arith, level))
          | no ne ↦ (x, ground arith, refl, omega arith)
        ])

  abbrev pub made : Inode
  made = record { right = null; down = sentinel; intermed = i.intermed; key = m.key }

  abbrev pub topped : Bool → Heap
  topped b = record (marked b) { inodes = write h.inodes (place mem h) (some made) }

  abbrev pub topped_height : Ptr → ℕ
  topped_height a = if place mem h == a then tall else height a

  pub topped-IsSkiplist : (b : Bool) → IsSkiplist topped_height (place mem h) (topped b)
  topped-IsSkiplist b = record {
    layer = (data_level b).layer;
    index =
        added_inode-IsIndex (marked b) (marked-IsIndex b) (place mem h) made tall unused live
          (omega arith) (λ z. absurd (z refl)) (λ _. (i, start, sym km, whole.used, refl))
          (λ z. absurd (whole.index.live_inode sentinel i start z))
          (m', ground arith, refl, omega arith);
    start = (made, ground arith, km ∙ zero_key);
    used = ground arith;
    top = λ x y ex ey. ground arith;
  }

  pub topped-Keeps : (b : Bool) → Keeps height topped_height h (topped b)
  topped-Keeps b a y e = (y, ground (arith, unused), refl, refl, refl, ground (arith, unused))

  pub topped-SameContents : (b : Bool) → SameContents h (topped b)
  topped-SameContents b = lifted-SameContents h whole tall i.intermed m under d datum b

  -- The heap with the new index node only.
  abbrev with_made : Heap
  with_made = record h { inodes = write h.inodes (place mem h) (some made) }

  abbrev with_level : Heap
  with_level = record with_made { mnodes = write h.mnodes i.intermed (some m') }

  pub add_level-ok :
      tall < 2 ^ 32 → add_level mem sentinel h ≡ ok (place mem h) (topped (ltb d.level tall))
  unfolding load_inode load_mnode load_node store_mnode store_node
  add_level-ok small =
      let live_m = whole.index.live_mnode i.intermed m under in
      let live_d : m.node ≢ null = (λ z. ground (arith, whole.layer.high m.node d datum)) in
      add_level_run mem sentinel tall {h = h} {h1 = with_made} {h2 = with_level} {new = place mem h}
        {i = i} {t = made} {m = m} {d = d} (load_inode-ok h whole.index sentinel i start)
        (inode_new-ok mem null sentinel i.intermed h whole.index live m under)
        (rw (==_false (place mem h) null live, ==_true (place mem h) (place mem h) refl) refl)
        (rw (==_false i.intermed null live_m, under) refl) (omega (arith, level)) refl
        (rw (==_false m.node null live_d, datum) refl)
        (elim (Bool-cases (ltb d.level tall)) [ inl t ↦ rw t refl | inr f ↦ rw f refl ])

-- The layers fit together under the new sentinel, with the same contents, and the index is one higher.
abbrev pub AddsLevel : Memory → ℕ → (Ptr → ℕ) → Ptr → Heap → Run Ptr → Type 0
AddsLevel mem room old sentinel h r =
    (height : Ptr → ℕ) × (new : Ptr) × (y : Inode) × (h' : Heap) × (r ≡ ok new h')
    × IsSkiplist height new h'
    × (height new ≡ old sentinel + 1)
    × (h'.inodes new ≡ some y)
    × (y.key ≡ 0)
    × SameContents h h'
    × Keeps old height h h'
    × Left mem room 1 h'

pub add_level-AddsLevel :
    (mem : Memory) (room : ℕ) {height : Ptr → ℕ} {sentinel : Ptr} (h : Heap)
    → IsSkiplist height sentinel h
    → height sentinel + 1 < 2 ^ 32
    → 0 < room
    → Rooms mem room h
    → AddsLevel mem room height sentinel h (add_level mem sentinel h)
add_level-AddsLevel mem room {height} {sentinel} h whole small some_room rooms =
    let (i, ei, ki) = whole.start in
    let (m, em, km, _) = whole.index.intermed sentinel i ei whole.used in
    let (d, ed, _) = whole.index.node i.intermed m em in
    let level = whole.top i m ei em in
    let (left, er, supply) = take_room mem h room some_room rooms in
    let (live, unused, others) = supply h (λ a e. e) in
    let b = ltb d.level (height sentinel + 1) in
    (
      topped_height mem h whole i ei ki m em km level d ed live unused,
      place mem h,
      made mem h whole i ei ki m em km level d ed live unused,
      topped mem h whole i ei ki m em km level d ed live unused b,
      add_level-ok mem h whole i ei ki m em km level d ed live unused small,
      topped-IsSkiplist mem h whole i ei ki m em km level d ed live unused b,
      ground arith,
      ground arith,
      km ∙ ki,
      topped-SameContents mem h whole i ei ki m em km level d ed live unused b,
      topped-Keeps mem h whole i ei ki m em km level d ed live unused b,
      (left, used_at h (place mem h), others, (λ a ea. ground arith), omega arith),
    )
