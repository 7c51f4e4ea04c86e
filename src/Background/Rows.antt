-- ===== src/Background/Rows.antt =====
-- The loop of update_index_layer that raises the index nodes, row by row.
use mathlib.Core.Path.{subst}
use hosk.Base.{
  ℕ, zero, suc, ◌+◌, ◌-◌, ◌*◌, ◌≤◌, ◌<◌, ◌≡◌, refl, sym, ◌∙◌, true, false, arith, ltb, lt→ltb,
  ltb-false,
}
use hosk.Enclave.{Ptr}
use hosk.Skiplist.{Inode, Mnode, Heap, Run, ok}
use hosk.Skiplist.Upper.{Memory, load_inode, load_mnode}
use hosk.Index.{IsSkiplist}
use hosk.Index.Search.{load_inode-ok, load_mnode-ok}
use hosk.Sweep.Trav.{Below}
use hosk.Levels.{pred, bg_raise_ilevel}
use hosk.Levels.Add.{SameContents, SameContents-refl, SameContents-trans}
use hosk.Levels.Bottom.{Keeps, Keeps-trans}
use hosk.Levels.Raise.{Rooms, Rooms-Within, Left}
use hosk.Levels.Row.{bg_raise_ilevel-RaisesRow}
use hosk.Background.{max_levels, raise_levels}
use hosk.Background.Column.{IsColumn}

-- Keys that stand in a layer with the same contents are below the same bound.
pub same-Below : (bound : ℕ) (h h' : Heap) → SameContents h h' → Below bound h → Below bound h'
same-Below bound h h' same below p m e =
    let (q, x, ex, kx, _) = (same.1 m.key m.marked).0 (p, m, e, refl, refl) in
    omega (arith, below q x ex)

pub same-IsColumn :
    {height height' : Ptr → ℕ} {sentinel sentinel' : Ptr} (h h' : Heap)
    (whole : IsSkiplist height sentinel h) (whole' : IsSkiplist height' sentinel' h') (n key : ℕ)
    (g : ℕ → Ptr)
    → Keeps height height' h h'
    → IsColumn h whole.index n key g
    → IsColumn h' whole'.index n key g
same-IsColumn h h' whole whole' n key g keeps column i lt =
    let (y, ey, hy, ky) = column i lt in
    let (z, ez, kz, _, _, hz) = keeps (g i) y ey in (z, ez, hz ∙ hy, kz ∙ ky)

-- The rooms that the passes over `c` rows may take.
abbrev pub rooms_for : ℕ → ℕ → ℕ
rooms_for zero bound = 0
rooms_for (suc c) bound = bound + rooms_for c bound

pub rooms_for-le : (c d bound : ℕ) → c ≤ d → rooms_for c bound ≤ rooms_for d bound
rooms_for-le zero d bound le = omega arith
rooms_for-le (suc c) zero bound le = absurd (omega arith)
rooms_for-le (suc c) (suc d) bound le =
    let rest = rooms_for-le c d bound (omega arith) in omega arith

abbrev pub RaisesAll : Memory → ℕ → ℕ → (Ptr → ℕ) → Ptr → Heap → Run ℕ → Type 0
RaisesAll mem room n old sentinel h r =
    (height : Ptr → ℕ) × (b : ℕ) × (h' : Heap) × (r ≡ ok b h')
    × IsSkiplist height sentinel h'
    × SameContents h h'
    × Keeps old height h h'
    × Left mem room n h'

module _ (mem : Memory) (fuel : ℕ) (sentinel : Ptr) (g : ℕ → Ptr) (k i b : ℕ) {h : Heap} {s : Inode}
    {m : Mnode} (load1 : load_inode sentinel h ≡ ok s h)
    (load2 : load_mnode s.intermed h ≡ ok m h) where
  levels_end :
      ltb i (pred m.level) ≡ false → raise_levels mem fuel (suc k) sentinel g i b h ≡ ok b h
  unfolding raise_levels
  levels_end f = rw (load1, load2, f) refl

  levels_more :
      {c : ℕ} {h1 : Heap}
      → ltb i (pred m.level) ≡ true
      → ltb i (max_levels - 1) ≡ true
      → bg_raise_ilevel mem fuel (g i) (g (i + 1)) (i + 1) h ≡ ok c h1
      → raise_levels mem fuel (suc k) sentinel g i b h
        ≡ raise_levels mem fuel k sentinel g (i + 1) c h1
  unfolding raise_levels
  levels_more t few run = rw (load1, load2, t, few, run) refl

module _ (mem : Memory) (fuel bound : ℕ) {sentinel : Ptr} (g : ℕ → Ptr)
    (enough : 2 * bound + 1 < fuel) where
  pub raise_levels-RaisesAll :
      (c k i b room : ℕ) {height : Ptr → ℕ} (h : Heap) (whole : IsSkiplist height sentinel h)
      → height sentinel ≡ i + c + 1
      → height sentinel ≤ max_levels
      → c < k
      → Below bound h
      → IsColumn h whole.index (height sentinel) 0 g
      → rooms_for c bound ≤ room
      → Rooms mem room h
      → RaisesAll mem room
          (rooms_for c bound)
          height
          sentinel
          h
          (raise_levels mem fuel k sentinel g i b h)
  unfolding raise_levels
  raise_levels-RaisesAll c zero i b room h whole high few less below column budget rooms =
      absurd (omega arith)
  raise_levels-RaisesAll zero (suc k) i b room {height} h whole high few less below column budget
        rooms =
      let (s, es, ks) = whole.start in
      let (m, em, km, _) = whole.index.intermed sentinel s es whole.used in
      let level = whole.top s m es em in
      (
        height,
        b,
        h,
        levels_end mem fuel sentinel g k i b (load_inode-ok h whole.index sentinel s es)
            (load_mnode-ok h whole.index s.intermed m em)
            (ltb-false i (pred m.level) (omega arith)),
        whole,
        SameContents-refl h,
        (λ a y e. (y, e, refl, refl, refl, refl)),
        (room, h, rooms, (λ a e. e), omega arith),
      )
  raise_levels-RaisesAll (suc c) (suc k) i b room {height} h whole high few less below column budget
        rooms =
      let (s, es, ks) = whole.start in
      let (m, em, km, _) = whole.index.intermed sentinel s es whole.used in
      let level = whole.top s m es em in
      let (p, ep, hp, kp) = column i (omega arith) in
      let (t, et, ht, kt) = column (i + 1) (omega arith) in
      let (height1, b1, h1, run1, whole1, same1, _, keeps1, left1) =
        bg_raise_ilevel-RaisesRow mem fuel bound (i + 1) room h (g i) (g (i + 1)) p t whole below
          (omega arith) ep hp et ht (omega arith) enough (omega arith) rooms in
      let (_, _, _, _, _, top) = keeps1 sentinel s es in
      let rooms1 = Rooms-Within mem left1.0 left1.1 h1 left1.2 left1.3 in
      let column1 : IsColumn h1 whole1.index (height1 sentinel) 0 g =
        subst (λ n. IsColumn h1 whole1.index n 0 g) (sym top)
          (same-IsColumn h h1 whole whole1 (height sentinel) 0 g keeps1 column) in
      let (height', b', h', run, whole', same, keeps, left) =
        raise_levels-RaisesAll c k (i + 1) b1 left1.0 h1 whole1 (omega arith) (omega arith)
          (omega arith) (same-Below bound h h1 same1 below) column1 (omega (arith, left1.4))
          rooms1 in
      (
        height',
        b',
        h',
        levels_more mem fuel sentinel g k i b (load_inode-ok h whole.index sentinel s es)
              (load_mnode-ok h whole.index s.intermed m em) (lt→ltb i (pred m.level) (omega arith))
              (lt→ltb i (max_levels - 1) (omega arith)) run1
            ∙ run,
        whole',
        SameContents-trans h h1 h' same1 same,
        Keeps-trans height height1 height' h h1 h' keeps1 keeps,
        (left.0, left.1, left.2, left.3, omega (arith, left.4, left1.4)),
      )
