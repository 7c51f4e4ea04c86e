-- ===== src/Background/Lowest.antt =====
-- The first part of update_index_layer after the sweep: it finds the first index node of each row and
-- raises intermediate nodes to the lowest.
use hosk.Base.{ℕ, suc, ◌+◌, ◌*◌, ◌≤◌, ◌<◌, ◌≡◌, refl, ◌∙◌, true, arith, ltb, lt→ltb}
use hosk.Enclave.{Ptr}
use hosk.Skiplist.{Inode, Heap, Run, null, ok, Mnode}
use hosk.Skiplist.Upper.{Memory}
use hosk.Index.{IsSkiplist}
use hosk.Index.Search.{load_inode-ok, load_mnode-ok}
use hosk.Sweep.Trav.{Below}
use hosk.Levels.Add.{SameContents}
use hosk.Levels.Raise.{Rooms, Left, Lifts}
use hosk.Levels.Spacing.{bg_raise_mlevel-Raises}
use hosk.Background.{
  max_levels, raise_bottom, load_inode, load_mnode, first_inodes, bg_raise_mlevel,
}
use hosk.Background.Column.{IsColumn, first_inodes-IsColumn}

-- The layers fit together, with the same contents, and the array has the sentinel's column.
abbrev pub RaisesLowest : Memory → ℕ → ℕ → (Ptr → ℕ) → Ptr → Heap → Run (ℕ × (ℕ → Ptr)) → Type 0
RaisesLowest mem room bound old sentinel h r =
    (height : Ptr → ℕ) × (b : ℕ) × (g : ℕ → Ptr) × (h' : Heap) × (r ≡ ok (b, g) h')
    × (whole : IsSkiplist height sentinel h') × (height sentinel ≡ old sentinel)
    × SameContents h h'
    × Lifts 1 h h'
    × Left mem room bound h'
    × IsColumn h' whole.index (height sentinel) 0 g
    × ((i : ℕ) → i + 1 ≡ height sentinel → g i ≡ sentinel)
    × ((i : ℕ) → height sentinel ≤ i → g i ≡ null)

raise_bottom_run :
    (mem : Memory) (fuel n b : ℕ) (sentinel : Ptr) (g : ℕ → Ptr) {h h' : Heap} {i y : Inode}
    {m : Mnode}
    → load_inode sentinel h ≡ ok i h
    → load_mnode i.intermed h ≡ ok m h
    → m.level ≡ suc n
    → ltb (suc n) max_levels ≡ true
    → first_inodes (suc n) sentinel (λ _. null) h ≡ ok (g, null) h
    → load_inode (g 0) h ≡ ok y h
    → bg_raise_mlevel mem fuel y.intermed (g 0) h ≡ ok b h'
    → raise_bottom mem fuel sentinel h ≡ ok (b, g) h'
unfolding raise_bottom
raise_bottom_run mem fuel n b sentinel g e1 e2 level few e3 e4 e5 =
    rw (e1, e2, level, few, e3, e4, e5) refl

-- On a skip list that is lower than MAX_LEVELS, with all keys below a bound, fuel for twice the bound
-- and room for as many index nodes as there are keys: this part ends, and no assertion fails; the
-- column of the sentinel is as long as its level says.
pub raise_bottom-RaisesLowest :
    (mem : Memory) (fuel bound room n : ℕ) {height : Ptr → ℕ} {sentinel : Ptr} (h : Heap)
    → IsSkiplist height sentinel h
    → height sentinel ≡ suc n
    → suc n < max_levels
    → Below bound h
    → 2 * bound + 1 < fuel
    → bound ≤ room + 2
    → Rooms mem room h
    → RaisesLowest mem room bound height sentinel h (raise_bottom mem fuel sentinel h)
raise_bottom-RaisesLowest mem fuel bound room n {height} {sentinel} h whole high few below enough
      budget rooms =
    let (i, ei, ki) = whole.start in
    let (m, em, km, up) = whole.index.intermed sentinel i ei whole.used in
    let level : m.level ≡ suc n = whole.top i m ei em ∙ high in
    let (g, walk, column, last, rest) =
      first_inodes-IsColumn h whole.index n sentinel i (λ _. null) ei high in
    let (y, ey, hy, ky) = column 0 (omega arith) in
    let (s, es, ks, _) = whole.index.intermed (g 0) y ey (omega arith) in
    let (height', b, h', run, whole', top, same, lifts, stays, left, _) =
      bg_raise_mlevel-Raises mem fuel bound room h (g 0) y s whole below ey (omega arith) es enough
        budget rooms in
    (
      height',
      b,
      g,
      h',
      raise_bottom_run mem fuel n b sentinel g (load_inode-ok h whole.index sentinel i ei)
          (load_mnode-ok h whole.index i.intermed m em) level (lt→ltb (suc n) max_levels few) walk
          (load_inode-ok h whole.index (g 0) y ey) run,
      whole',
      top,
      same,
      lifts,
      left,
      λ j lt.
          let (z, ez, hz, kz) = column j (omega (arith, top, high)) in
          let (w, ew, kw, _, _, hw, _) = stays (g j) z ez in (w, ew, omega arith, kw ∙ kz ∙ ki),
      λ j eq. let z : j ≡ n = omega (arith, top, high) in rw z last,
      λ j le. rest j (omega (arith, top, high)),
    )
