-- ===== src/Levels/Spacing.antt =====
-- bg_raise_mlevel ends, and what it leaves.
use mathlib.Core.Path.{subst}
use hosk.Base.{
  ◌-◌, ℕ, zero, suc, ◌+◌, ◌*◌, ◌≤◌, ◌<◌, ◌≡◌, refl, sym, ◌∙◌, inl, inr, Bool, false, not, ◌&&◌,
  some, arith, ℕ_discrete, Bool-cases, ◌==◌, ==_true, ==_false, ap,
}
use hosk.Enclave.{Ptr}
use hosk.Skiplist.{Inode, Mnode, Heap, Run, null, ok}
use hosk.Skiplist.Upper.{Memory}
use hosk.Index.{IsSkiplist}
use hosk.Index.Search.{load_mnode-ok}
use hosk.Sweep.Trav.{Below}
use hosk.Levels.{raise_mnodes, bg_raise_mlevel}
use hosk.Levels.Add.{SameContents, SameContents-refl, SameContents-trans}
use hosk.Levels.Bottom.{Stays, Stays-refl, Stays-trans}
use hosk.Levels.Raise.{
  Left, Rooms, Lifts, Lifts-refl, Lifts-trans, Spaced, last-Spaced, next-Spaced,
}
use hosk.Levels.Rounds.{Ready, leave_step, raise_step}

-- What a pass leaves: the layers fit together, with the same contents, levels only went from 0 to 1,
-- and, where the pass raises at all, no three nodes in a row from the key `k` on are without a level.
abbrev pub Raises : Memory → ℕ → ℕ → (Ptr → ℕ) → Ptr → ℕ → Bool → Heap → Run ℕ → Type 0
Raises mem room n old sentinel k skip h r =
    (height : Ptr → ℕ) × (b : ℕ) × (h' : Heap) × (r ≡ ok b h')
    × IsSkiplist height sentinel h'
    × (height sentinel ≡ old sentinel)
    × SameContents h h'
    × Lifts 1 h h'
    × Stays 1 old height h h'
    × Left mem room n h'
    × (skip ≡ false → Spaced k h')

-- One more node in front of what the later rounds leave.
prepend :
    {height : Ptr → ℕ} {sentinel : Ptr} (h h' : Heap) {prev node : Ptr} {p m x : Mnode}
    → IsSkiplist height sentinel h'
    → Lifts 1 h h'
    → h.mnodes prev ≡ some p
    → p.next ≡ node
    → h.mnodes node ≡ some m
    → h.mnodes m.next ≡ some x
    → ¬ ((p.level ≡ 0) × (m.level ≡ 0) × (x.level ≡ 0))
    → Spaced m.key h'
    → Spaced p.key h'
prepend h h' {prev} {node} {p} {m} {x} whole lifts before leads here there first rest =
    let (p', ep, kp, np, _, lp) = lifts prev p before in
    let (m', em, km, nm, _, lm) = lifts node m here in
    let (x', ex, kx, nx, _, lx) = lifts m.next x there in
    subst (λ k. Spaced k h') kp
      (next-Spaced h' whole.index ep (np ∙ leads) em
        (λ z ez (l1, l2, l3). first (ground arith, ground arith, ground arith))
        (subst (λ k. Spaced k h') (sym km) rest))

loop-Raises :
    (fuel bound : ℕ) {mem : Memory} {sentinel mnode prev node inode : Ptr} {s p m : Mnode}
    {h : Heap} (b : ℕ)
    → (ready : Ready mem bound sentinel mnode prev node inode s p m h)
    → 2 * bound + 1 < fuel + m.key
    → Raises mem ready.room
        (bound - m.key)
        ready.height
        sentinel
        p.key
        s.marked
        h
        (raise_mnodes mem fuel mnode prev node m.next inode inode inode b h)
unfolding raise_mnodes
loop-Raises zero bound {node = node} {m = m} b ready enough =
    absurd (omega (arith, ready.below node m ready.here))
loop-Raises (suc k) bound {sentinel = sentinel} {node = node} {s = s} {p = p} {m = m} {h = h} b
      ready enough =
    elim (ℕ_discrete m.next null) [
      | yes end ↦ (
        ready.height,
        b,
        h,
        rw (==_true m.next null end) refl,
        ready.whole,
        refl,
        SameContents-refl h,
        Lifts-refl 1 h,
        Stays-refl 1 ready.height h,
        (ready.room, ready.old, ready.rooms, ready.within, omega arith),
        λ _. last-Spaced h ready.whole.index ready.before ready.leads ready.here end,
      )
      | no more ↦
          let (x, ex, far) = ready.whole.index.mnodes.follows node m ready.here more in
          elim (Bool-cases (not s.marked && ((p.level == 0) && (m.level == 0) && (x.level == 0)))) [
            | inl t ↦
                let (
                  new, s', m', x', h1, next, top1, step, same1, lifts1, stays1, one, mark, key,
                  level, lt,
                ) =
                  raise_step ready x ex k b t (omega (arith, ready.below node m ready.here)) in
                let (height', b', h', run, whole', top, same, lifts, stays, left, spaced) =
                  loop-Raises k bound 1 next (omega (arith)) in
                let (p1, ep1, kp1, np1, _, _) = lifts1 _ p ready.before in
                (
                  height',
                  b',
                  h',
                  step ∙ run,
                  whole',
                  top ∙ top1,
                  SameContents-trans h h1 h' same1 same,
                  Lifts-trans 1 h h1 h' lifts1 lifts,
                  Stays-trans 1 ready.height next.height height' h h1 h' stays1 stays,
                  (left.0, left.1, left.2, left.3, omega (arith, left.4, ready.below m.next x ex)),
                  λ u.
                      subst (λ k. Spaced k h') kp1
                        (prepend h1 h' whole' lifts ep1 (np1 ∙ ready.leads) next.before
                          (ap h1.mnodes next.leads ∙ next.here) (λ (_, l, _). ground arith)
                          (spaced (mark ∙ u))),
                )
            | inr f ↦
                let (next, same_height, same_room, step) = leave_step ready x ex k b f in
                let (height', b', h', run, whole', top, same, lifts, stays, left, spaced) =
                  loop-Raises k bound b next (omega arith) in
                (
                  height',
                  b',
                  h',
                  step ∙ run,
                  whole',
                  top ∙ ap (λ f. f sentinel) same_height,
                  same,
                  lifts,
                  subst (λ f. Stays 1 f height' h h') same_height stays,
                  (
                    left.0,
                    left.1,
                    left.2,
                    left.3,
                    omega (arith, left.4, same_room, ready.below m.next x ex),
                  ),
                  λ u.
                      prepend h h' whole' lifts ready.before ready.leads ready.here ex
                        (λ (l1, l2, l3). ground (arith, f)) (spaced u),
                )
          ]
    ]

-- On a skip list with all keys below a bound, from an index node of the lowest row, with fuel for twice the
-- bound and room for as many index nodes as there are keys: bg_raise_mlevel ends; the layers fit
-- together, the index as high as it was, with the keys, values and marks as before, no level changed but from 0 to 1; the
-- index nodes of the other rows are as they were, and those of the lowest row are still there; no more
-- index nodes are taken than the bound; and unless
-- the intermediate node where it starts is marked, of any three intermediate nodes in a row from
-- there on one has a level.
pub bg_raise_mlevel-Raises :
    (mem : Memory) (fuel bound room : ℕ) {height : Ptr → ℕ} {sentinel : Ptr} (h : Heap)
    (inode : Ptr) (i : Inode) (s : Mnode)
    → IsSkiplist height sentinel h
    → Below bound h
    → h.inodes inode ≡ some i
    → height inode ≡ 1
    → h.mnodes i.intermed ≡ some s
    → 2 * bound + 1 < fuel
    → bound ≤ room + 2
    → Rooms mem room h
    → Raises mem room bound height sentinel i.key s.marked h
        (bg_raise_mlevel mem fuel i.intermed inode h)
unfolding bg_raise_mlevel
bg_raise_mlevel-Raises mem fuel bound room {height} h inode i s whole below here row start enough
      budget rooms =
    let (s', es, ks, _) = whole.index.intermed inode i here (omega arith) in
    let key : s.key ≡ i.key = ground arith in
    let live = whole.index.live_inode inode i here in
    elim (ℕ_discrete s.next null) [
      | yes end ↦ (
        height,
        0,
        h,
        rw
            (
              ==_false inode null live,
              load_mnode-ok h whole.index i.intermed s start,
              ==_true s.next null end,
            )
            refl,
        whole,
        refl,
        SameContents-refl h,
        Lifts-refl 1 h,
        Stays-refl 1 height h,
        (room, h, rooms, (λ a e. e), omega arith),
        λ _ a x y z ex ey ez le.
            let (y', ey', far) =
              whole.index.mnodes.follows a x ex (whole.index.live_mnode x.next y ey) in
            absurd (whole.index.mnodes.goes_on i.intermed x.next s y start ey (ground arith) end),
      )
      | no more ↦
          let (n, en, far) = whole.index.mnodes.follows i.intermed s start more in
          let (height', b', h', run, whole', top, same, lifts, stays, left, spaced) =
            loop-Raises fuel bound 0
              (record {
                height = height;
                whole = whole;
                below = below;
                start = start;
                before = start;
                leads = refl;
                here = en;
                i = i;
                index = here;
                row = row;
                front = omega arith;
                old = h;
                room = room;
                rooms = rooms;
                within = λ a e. e;
                budget = omega arith;
              })
              (omega arith) in
          (
            height',
            b',
            h',
            rw
                (
                  ==_false inode null live,
                  load_mnode-ok h whole.index i.intermed s start,
                  ==_false s.next null more,
                  load_mnode-ok h whole.index s.next n en,
                )
                run,
            whole',
            top,
            same,
            lifts,
            stays,
            (left.0, left.1, left.2, left.3, omega (arith, left.4)),
            λ u. subst (λ k. Spaced k h') key (spaced u),
          )
    ]
