-- ===== src/Levels/Row.antt =====
-- bg_raise_ilevel ends, and what it leaves.
use mathlib.Core.Path.{ap, subst}
use hosk.Base.{
  ℕ, zero, suc, ◌+◌, ◌-◌, ◌*◌, ◌≤◌, ◌<◌, ◌≡◌, refl, sym, ◌∙◌, ◌≢◌, inl, inr, some, arith,
  ℕ_discrete, Bool-cases, ◌&&◌, leb, ==_false,
}
use hosk.Enclave.{Ptr}
use hosk.Skiplist.{Inode, Mnode, Heap, Run, null, ok}
use hosk.Skiplist.Upper.{Memory, place, load_inode}
use hosk.Index.{IsSkiplist}
use hosk.Index.Search.{load_inode-ok, load_mnode-ok}
use hosk.Sweep.Trav.{Below}
use hosk.Levels.{skip_marked, find_above, add_above, raise_inodes, bg_raise_ilevel}
use hosk.Levels.Above.{Between, find_above-Finds}
use hosk.Levels.Add.{SameContents, SameContents-refl, SameContents-trans}
use hosk.Levels.Bottom.{Keeps, Keeps-trans, Stays-Keeps, round}
use hosk.Levels.Raise.{Within, used_at, Rooms, Left, Lifts, Lifts-refl, Lifts-trans}
use hosk.Levels.Rounds.{take_room}
use hosk.Levels.Skip.{Skipped, skip_marked-Skips}
use hosk.Levels.RowRound.{row_end, row_last, row_skipped, row_leave, row_raise}

-- Where a round stands: `iprev` in its row, and the node `tall` of the row above, not behind it.
pub record OnRow (mem : Memory) (bound row : ℕ) (sentinel iprev tall : Ptr) (h : Heap)
    : Type 0 where
  pub height : Ptr → ℕ
  pub whole : IsSkiplist height sentinel h
  pub below : Below bound h
  pub some_row : 0 < row
  pub p : Inode
  pub before : h.inodes iprev ≡ some p
  pub prev_row : height iprev ≡ row
  pub t : Inode
  pub above : h.inodes tall ≡ some t
  pub tall_row : height tall ≡ row + 1
  pub reached : t.key ≤ p.key
  pub old : Heap
  pub room : ℕ
  pub rooms : Rooms mem room old
  pub within : Within old h
  pub budget : bound ≤ room + p.key + 2

-- The layers fit together, with the same contents; levels only went up to the one of the row above.
abbrev pub RaisesRow : Memory → ℕ → ℕ → ℕ → (Ptr → ℕ) → Ptr → Heap → Run ℕ → Type 0
RaisesRow mem room n row old sentinel h r =
    (height : Ptr → ℕ) × (b : ℕ) × (h' : Heap) × (r ≡ ok b h')
    × IsSkiplist height sentinel h'
    × SameContents h h'
    × Lifts (row + 1) h h'
    × Keeps old height h h'
    × Left mem room n h'

-- Nothing but index nodes was unlinked.
rest :
    {mem : Memory} {bound row : ℕ} {sentinel iprev tall : Ptr} {h : Heap} (b : ℕ)
    (ready : OnRow mem bound row sentinel iprev tall h) (h1 : Heap)
    → IsSkiplist ready.height sentinel h1
    → h1 ≡ record h { inodes = h1.inodes }
    → Within h h1
    → Keeps ready.height ready.height h h1
    → RaisesRow mem ready.room (bound - ready.p.key) row ready.height sentinel h (ok b h1)
rest {row = row} {h = h} b ready h1 whole only within keeps = (
  ready.height,
  b,
  h1,
  refl,
  whole,
  subst (SameContents h) (sym only) (SameContents-refl h),
  subst (Lifts (row + 1) h) (sym only) (Lifts-refl (row + 1) h),
  keeps,
  (ready.room, ready.old, ready.rooms, (λ a e. within a (ready.within a e)), omega arith),
)

module _ (mem : Memory) (bound row : ℕ) {sentinel : Ptr} where
  -- What later rounds leave, after an earlier one that takes at most one room.
  later :
      (room room1 a a1 : ℕ) (height height1 : Ptr → ℕ) (h h1 : Heap) {r r1 : Run ℕ}
      → r ≡ r1
      → SameContents h h1
      → Lifts (row + 1) h h1
      → Keeps height height1 h h1
      → room ≤ room1 + 1
      → a < a1
      → a1 ≤ bound
      → RaisesRow mem room1 (bound - a1) row height1 sentinel h1 r1
      → RaisesRow mem room (bound - a) row height sentinel h r
  later room room1 a a1 height height1 h h1 step same lifts keeps few up small
        (height', b, h', run, whole, same', lifts', keeps', left) =
      (
        height',
        b,
        h',
        step ∙ run,
        whole,
        SameContents-trans h h1 h' same same',
        Lifts-trans (row + 1) h h1 h' lifts lifts',
        Keeps-trans height height1 height' h h1 h' keeps keeps',
        (left.0, left.1, left.2, left.3, omega (arith, left.4)),
      )

  -- A round that leaves the node `at`, where the inner loop ended.
  module _ {iprev tall : Ptr} {h : Heap} (ready : OnRow mem bound row sentinel iprev tall h)
      {at : Ptr} {h1 : Heap}
      (done : Skipped ready.height sentinel iprev ready.p.key (ready.height iprev) h at h1) where
    Keeps-skipped : Keeps ready.height ready.height h h1
    Keeps-skipped = Stays-Keeps (ready.height iprev) ready.height ready.height h h1 done.stays

    Below-skipped : Below bound h1
    Below-skipped = subst (Below bound) (sym done.only) ready.below

    pub leave_next :
        (next : OnRow mem bound row sentinel at tall h1) × (next.height ≡ ready.height)
        × (next.p ≡ done.i)
        × (next.room ≡ ready.room)
    leave_next =
        let (t1, et1, kt1, _, _, _) = Keeps-skipped tall ready.t ready.above in
        (
          record {
            height = ready.height;
            whole = done.whole;
            below = Below-skipped;
            some_row = ready.some_row;
            p = done.i;
            before = done.here;
            prev_row = done.level ∙ ready.prev_row;
            t = t1;
            above = et1;
            tall_row = ready.tall_row;
            reached = omega (arith, ready.reached, done.behind);
            old = ready.old;
            room = ready.room;
            rooms = ready.rooms;
            within = λ a e. done.within a (ready.within a e);
            budget = omega (arith, ready.budget, done.behind);
          },
          refl,
          refl,
          refl,
        )

    -- A round that raises it.
    pub raise_next :
        (jm : Mnode) (k : ℕ)
        → h1.mnodes done.i.intermed ≡ some jm
        → jm.key ≡ done.i.key
        → jm.level ≤ row
        → jm.key + 1 < bound
        → bound + 1 < k
        → (above behind : Ptr) × (h2 : Heap) × (next : OnRow mem bound row sentinel at
            (place mem h1)
            h2)
          × (find_above k tall tall tall jm.key h1 ≡ ok (above, behind) h1)
          × (add_above mem (row + 1) at done.i.intermed behind h1 ≡ ok (place mem h1) h2)
          × SameContents h1 h2
          × Lifts (row + 1) h1 h2
          × Keeps ready.height next.height h1 h2
          × (ready.room ≡ next.room + 1)
          × (next.p.key ≡ done.i.key)
          × (next.p.right ≡ done.i.right)
    raise_next jm k under key low far enough =
        let index = done.whole.index in
        let (t1, et1, kt1, _, _, _) = Keeps-skipped tall ready.t ready.above in
        let front : t1.key < jm.key = omega (arith, ready.reached, done.behind) in
        let (room, er, supply) =
          take_room mem ready.old ready.room (omega (arith, ready.budget, done.behind))
            ready.rooms in
        let (live, unused, rooms) = supply h1 (λ a e. done.within a (ready.within a e)) in
        let (above, behind, w, run1, between) =
          find_above-Finds h1 index jm.key tall t1 et1 k (omega (arith, ready.tall_row)) front
            (omega arith) in
        let level : ready.height at ≡ row = done.level ∙ ready.prev_row in
        let (h2, run2, raised) =
          round mem h1 done.whole (row + 1) under (omega arith) live unused above behind at w
            (subst (λ r. Between h1 index jm.key r above behind w) ready.tall_row between)
            (λ _. (done.i, done.here, sym key, omega (arith, ready.some_row), omega arith))
            (λ z. absurd (index.live_inode at done.i done.here z)) in
        let (z, ez, kz, dz, iz, hz, rz) = raised.stays at done.i done.here in
        let (y, ey, ky, hy) = raised.new in
        (
          above,
          behind,
          h2,
          record {
            height = raised.height;
            whole = raised.whole;
            below = λ a x ex.
                let (x', ex', kx, _) = raised.back a x ex in omega (arith, Below-skipped a x' ex');
            some_row = ready.some_row;
            p = z;
            before = ez;
            prev_row = hz ∙ level;
            t = y;
            above = ey;
            tall_row = hy;
            reached = omega arith;
            old = used_at ready.old (place mem h1);
            room = room;
            rooms = rooms;
            within = λ a ea. ground (arith, raised.unused a, done.within a, ready.within a);
            budget = omega (arith, ready.budget, done.behind);
          },
          run1,
          run2,
          raised.same,
          raised.lifts,
          Stays-Keeps (row + 1) ready.height raised.height h1 h2 raised.stays,
          omega arith,
          kz,
          rz (omega arith),
        )

  -- The rest of the loop from the node where the inner loop ended, by what later rounds leave.
  go_on :
      (k b : ℕ) {iprev tall : Ptr} {h : Heap} (ready : OnRow mem bound row sentinel iprev tall h)
      (i : Inode) {at : Ptr} {h1 : Heap}
      (done : Skipped ready.height sentinel iprev ready.p.key (ready.height iprev) h at h1)
      → ready.p.right ≢ null
      → load_inode ready.p.right h ≡ ok i h
      → i.right ≢ null
      → skip_marked k iprev ready.p.right i.right h ≡ ok (at, done.i.right) h1
      → done.i.right ≢ null
      → 2 * bound + 1 < suc k + ready.p.key
      → ((c : ℕ) (tall' : Ptr) (h' : Heap) (next : OnRow mem bound row sentinel at tall' h')
          → done.i.key ≤ next.p.key
          → RaisesRow mem next.room
              (bound - next.p.key)
              row
              next.height
              sentinel
              h'
              (raise_inodes mem row k at next.p.right tall' tall' tall' c h'))
      → RaisesRow mem ready.room
          (bound - ready.p.key)
          row
          ready.height
          sentinel
          h
          (raise_inodes mem row (suc k) iprev ready.p.right tall tall tall b h)
  go_on k b {iprev} {tall} {h} ready i {at} {h1} done on load1 further skip more enough rounds =
      let index = done.whole.index in
      let keeps1 = Keeps-skipped ready done in
      let used : 0 < ready.height iprev = omega (arith, ready.some_row, ready.prev_row) in
      let used_at : 0 < ready.height at = omega (arith, done.level) in
      let (p1, ep1, kp1, _, _, _) = keeps1 iprev ready.p ready.before in
      let (pm, epm, _, _) = index.intermed iprev p1 ep1 used in
      let (jm, ejm, kjm, _) = index.intermed at done.i done.here used_at in
      let (x, ex, far, level) = index.right at done.i done.here used_at more in
      let (xm, exm, kxm, _) = index.intermed done.i.right x ex (omega arith) in
      let small : xm.key < bound = Below-skipped ready done x.intermed xm exm in
      let behind = done.behind in
      let load2 = load_inode-ok h1 index iprev p1 ep1 in
      let load3 = load_mnode-ok h1 index p1.intermed pm epm in
      let load4 = load_inode-ok h1 index at done.i done.here in
      let load5 = load_mnode-ok h1 index done.i.intermed jm ejm in
      let load6 = load_inode-ok h1 index done.i.right x ex in
      let load7 = load_mnode-ok h1 index x.intermed xm exm in
      let same1 : SameContents h h1 =
        subst (SameContents h) (sym done.only) (SameContents-refl h) in
      let lifts1 : Lifts (row + 1) h h1 =
        subst (Lifts (row + 1) h) (sym done.only) (Lifts-refl (row + 1) h) in
      elim (Bool-cases (leb pm.level row && (leb jm.level row && leb xm.level row))) [
        | inr f ↦
            let (next, same_height, same_p, same_room) = leave_next ready done in
            later ready.room next.room ready.p.key next.p.key ready.height next.height h h1
              (row_leave mem row k b iprev ready.p.right tall on load1 further skip more load2 load3
                  load4 load5 load6 load7 f
                ∙ ap (λ q. raise_inodes mem row k at q.right tall tall tall b h1) (sym same_p))
              same1 lifts1 (subst (λ f. Keeps ready.height f h h1) (sym same_height) keeps1)
              (omega arith) (rw same_p behind) (rw same_p (omega arith))
              (rounds b tall h1 next (rw same_p (omega arith)))
        | inl t ↦
            let (above, q, h2, next, run1, run2, same2, lifts2, keeps2, one, key, right) =
              raise_next ready done jm k ejm kjm (ground (arith, t)) (omega arith) (omega arith) in
            later ready.room next.room ready.p.key next.p.key ready.height next.height h h2
              (row_raise mem row k b iprev ready.p.right tall on load1 further skip more load2 load3
                  load4 load5 load6 load7 t run1 run2
                ∙ ap
                    (λ q.
                      raise_inodes mem row k at q (place mem h1) (place mem h1) (place mem h1) 1 h2)
                    (sym right))
              (SameContents-trans h h1 h2 same1 same2) (Lifts-trans (row + 1) h h1 h2 lifts1 lifts2)
              (Keeps-trans ready.height ready.height next.height h h1 h2 keeps1 keeps2)
              (omega arith) (omega arith) (omega arith)
              (rounds 1 (place mem h1) h2 next (omega arith))
      ]

  pub row-Raises :
      (fuel b : ℕ) {iprev tall : Ptr} {h : Heap} (ready : OnRow mem bound row sentinel iprev tall h)
      → 2 * bound + 1 < fuel + ready.p.key
      → RaisesRow mem ready.room
          (bound - ready.p.key)
          row
          ready.height
          sentinel
          h
          (raise_inodes mem row fuel iprev ready.p.right tall tall tall b h)
  unfolding raise_inodes
  row-Raises zero b ready enough =
      let (m, em, km, _) =
        ready.whole.index.intermed _ ready.p ready.before
          (omega (arith, ready.some_row, ready.prev_row)) in
      absurd (omega (arith, ready.below ready.p.intermed m em))
  row-Raises (suc k) b {iprev} {tall} {h} ready enough = elim (ℕ_discrete ready.p.right null) [
    | yes end ↦
        rw (row_end mem row k b iprev ready.p.right tall end)
          (rest b ready h ready.whole refl (λ a e. e) (λ a y e. (y, e, refl, refl, refl, refl)))
    | no on ↦
        let index = ready.whole.index in
        let used : 0 < ready.height iprev = omega (arith, ready.some_row, ready.prev_row) in
        let (i, ei, far, level) = index.right iprev ready.p ready.before used on in
        let load1 = load_inode-ok h index ready.p.right i ei in
        elim (ℕ_discrete i.right null) [
          | yes end ↦
              rw (row_last mem row k b iprev ready.p.right tall on load1 end) (
                rest b ready h ready.whole refl (λ a e. e)
                  (λ a y e. (y, e, refl, refl, refl, refl)))
          | no further ↦
              let (at, h1, done, skip) =
                skip_marked-Skips k bound h ready.whole ready.below iprev ready.p ready.before used
                  ready.p.right i ei level far (omega arith) in
              let keeps1 : Keeps ready.height ready.height h h1 =
                Stays-Keeps (ready.height iprev) ready.height ready.height h h1 done.stays in
              elim (ℕ_discrete done.i.right null) [
                | yes end ↦
                    rw (row_skipped mem row k b iprev ready.p.right tall on load1 further skip end)
                      (rest b ready h1 done.whole done.only done.within keeps1)
                | no more ↦
                    go_on k b ready i done on load1 further skip more enough
                      λ c _ _ next up. row-Raises k c next (omega (arith, done.behind))
              ]
        ]
  ]

-- On a skip list with all keys below a bound, from an index node of a row and one of the row above that
-- is not behind it, with fuel for twice the bound and room for as many index nodes as there are keys:
-- bg_raise_ilevel ends, and no assertion fails; the layers fit together, with the keys, values and
-- marks as before; levels only went up to that of the row above; and every index node that was there
-- is as high as it was and over the same nodes.
pub bg_raise_ilevel-RaisesRow :
    (mem : Memory) (fuel bound row room : ℕ) {height : Ptr → ℕ} {sentinel : Ptr} (h : Heap)
    (iprev tall : Ptr) (p t : Inode)
    → IsSkiplist height sentinel h
    → Below bound h
    → 0 < row
    → h.inodes iprev ≡ some p
    → height iprev ≡ row
    → h.inodes tall ≡ some t
    → height tall ≡ row + 1
    → t.key ≤ p.key
    → 2 * bound + 1 < fuel
    → bound ≤ room + 2
    → Rooms mem room h
    → RaisesRow mem room bound row height sentinel h (bg_raise_ilevel mem fuel iprev tall row h)
unfolding bg_raise_ilevel
bg_raise_ilevel-RaisesRow mem fuel bound row room {height} h iprev tall p t whole below some_row
      before prev_row above tall_row reached enough budget rooms =
    let (height', b, h', run, whole', same, lifts, keeps, left) =
      row-Raises mem bound row fuel 0
        (record {
          height = height;
          whole = whole;
          below = below;
          some_row = some_row;
          p = p;
          before = before;
          prev_row = prev_row;
          t = t;
          above = above;
          tall_row = tall_row;
          reached = reached;
          old = h;
          room = room;
          rooms = rooms;
          within = λ a e. e;
          budget = omega arith;
        })
        (omega arith) in
    (
      height',
      b,
      h',
      rw
          (
            ==_false iprev null (whole.index.live_inode iprev p before),
            ==_false tall null (whole.index.live_inode tall t above),
            load_inode-ok h whole.index iprev p before,
          )
          run,
      whole',
      same,
      lifts,
      keeps,
      (left.0, left.1, left.2, left.3, omega (arith, left.4)),
    )
