-- ===== src/Levels/Rounds.antt =====
-- One round of the loop of bg_raise_mlevel: where it stands, and where the next one does.
use mathlib.Core.Path.{subst}
use hosk.Base.{
  sym, ℕ, zero, suc, ◌+◌, ◌≤◌, ◌<◌, ◌≡◌, refl, ◌≢◌, true, false, not, ◌&&◌, some, none, arith, ◌==◌,
  ==_false,
}
use hosk.Enclave.{Ptr}
use hosk.Skiplist.{Inode, Mnode, Heap, null, ok}
use hosk.Skiplist.Upper.{Memory, place, load_mnode}
use hosk.Index.{IsSkiplist}
use hosk.Index.Search.{load_mnode-ok}
use hosk.Sweep.Trav.{Below}
use hosk.Levels.{raise_mnodes, find_above, add_above}
use hosk.Levels.Above.{Between, find_above-Finds}
use hosk.Levels.Add.{SameContents}
use hosk.Levels.Bottom.{Stays, round}
use hosk.Levels.Raise.{Within, used_at, Rooms, Lifts}

-- Where a round stands: the nodes `mnode`, `prev` and `node`, the index node `inode` in front of them,
-- and the rooms left since the heap `old`.
pub record Ready (mem : Memory) (bound : ℕ) (sentinel mnode prev node inode : Ptr) (s p m : Mnode)
    (h : Heap) : Type 0 where
  pub height : Ptr → ℕ
  pub whole : IsSkiplist height sentinel h
  pub below : Below bound h
  pub start : h.mnodes mnode ≡ some s
  pub before : h.mnodes prev ≡ some p
  pub leads : p.next ≡ node
  pub here : h.mnodes node ≡ some m
  pub i : Inode
  pub index : h.inodes inode ≡ some i
  pub row : height inode ≡ 1
  pub front : i.key < m.key
  pub old : Heap
  pub room : ℕ
  pub rooms : Rooms mem room old
  pub within : Within old h
  pub budget : bound ≤ room + m.key + 1

pub take_room :
    (mem : Memory) (h : Heap) (r : ℕ)
    → 0 < r
    → Rooms mem r h
    → (r' : ℕ) × (r ≡ suc r')
      × ((x : Heap)
          → Within h x
          → (place mem x ≢ null)
            × (x.inodes (place mem x) ≡ none)
            × Rooms mem r' (used_at h (place mem x)))
unfolding Rooms
take_room mem h zero some_room rooms = absurd (omega arith)
take_room mem h (suc r) some_room rooms = (r, refl, rooms)

-- A round of the loop, by its test.
module _ (mem : Memory) (k b : ℕ) (mnode prev node inode : Ptr) {h : Heap} {next : Ptr}
    {s p m x : Mnode} (more : next ≢ null) (load1 : load_mnode mnode h ≡ ok s h)
    (load2 : load_mnode prev h ≡ ok p h) (load3 : load_mnode node h ≡ ok m h)
    (load4 : load_mnode next h ≡ ok x h) where
  raise_round :
      {h1 : Heap} {above behind new : Ptr} {y : Mnode}
      → (not s.marked && ((p.level == 0) && (m.level == 0) && (x.level == 0))) ≡ true
      → find_above k inode inode inode m.key h ≡ ok (above, behind) h
      → add_above mem 1 null node behind h ≡ ok new h1
      → load_mnode next h1 ≡ ok y h1
      → raise_mnodes mem (suc k) mnode prev node next inode inode inode b h
        ≡ raise_mnodes mem k mnode node next y.next new new new 1 h1
  unfolding raise_mnodes
  raise_round t run1 run2 load5 =
      rw (==_false next null more, load1, load2, load3, load4, t, run1, run2, load5) refl

  leave_round :
      (not s.marked && ((p.level == 0) && (m.level == 0) && (x.level == 0))) ≡ false
      → raise_mnodes mem (suc k) mnode prev node next inode inode inode b h
        ≡ raise_mnodes mem k mnode node next x.next inode inode inode b h
  unfolding raise_mnodes
  leave_round f = rw (==_false next null more, load1, load2, load3, load4, f) refl

module _ {mem : Memory} {bound : ℕ} {sentinel mnode prev node inode : Ptr} {s p m : Mnode}
    {h : Heap} (ready : Ready mem bound sentinel mnode prev node inode s p m h) (x : Mnode)
    (there : h.mnodes m.next ≡ some x) (k b : ℕ) where
  -- The round leaves `node` alone.
  pub leave_step :
      (not s.marked && ((p.level == 0) && (m.level == 0) && (x.level == 0))) ≡ false
      → (next : Ready mem bound sentinel mnode node m.next inode s m x h) × (next.height
          ≡ ready.height)
        × (next.room ≡ ready.room)
        × (raise_mnodes mem (suc k) mnode prev node m.next inode inode inode b h
            ≡ raise_mnodes mem k mnode node m.next x.next inode inode inode b h)
  leave_step f =
      let index = ready.whole.index in
      let more = index.live_mnode m.next x there in
      let (x', ex', far) = index.mnodes.follows node m ready.here more in
      let further : m.key < x.key = ground arith in
      (
        record {
          height = ready.height;
          whole = ready.whole;
          below = ready.below;
          start = ready.start;
          before = ready.here;
          leads = refl;
          here = there;
          i = ready.i;
          index = ready.index;
          row = ready.row;
          front = omega (arith, ready.front);
          old = ready.old;
          room = ready.room;
          rooms = ready.rooms;
          within = ready.within;
          budget = omega (arith, ready.budget);
        },
        refl,
        refl,
        leave_round mem k b mnode prev node inode more (load_mnode-ok h index mnode s ready.start)
            (load_mnode-ok h index prev p ready.before) (load_mnode-ok h index node m ready.here)
            (load_mnode-ok h index m.next x there) f,
      )

  -- The round raises `node`.
  pub raise_step :
      (not s.marked && ((p.level == 0) && (m.level == 0) && (x.level == 0))) ≡ true
      → m.key + 1 < k
      → (new : Ptr) × (s' m' x' : Mnode) × (h' : Heap) × (next : Ready mem bound sentinel mnode node
          m.next new s' m' x' h')
        × (next.height sentinel ≡ ready.height sentinel)
        × (raise_mnodes mem (suc k) mnode prev node m.next inode inode inode b h
            ≡ raise_mnodes mem k mnode node m.next x'.next new new new 1 h')
        × SameContents h h'
        × Lifts 1 h h'
        × Stays 1 ready.height next.height h h'
        × (suc next.room ≡ ready.room)
        × (s'.marked ≡ s.marked)
        × (m'.key ≡ m.key)
        × (m'.level ≡ 1)
        × (m.key < x'.key)
  raise_step t enough =
      let index = ready.whole.index in
      let more = index.live_mnode m.next x there in
      let (y, ey, far) = index.mnodes.follows node m ready.here more in
      let further : m.key < x.key = ground arith in
      let flat : m.level ≡ 0 = ground (arith, t) in
      let (room, er, supply) =
        take_room mem ready.old ready.room (omega (arith, ready.budget, ready.below m.next x there))
          ready.rooms in
      let (live, unused, rooms) = supply h ready.within in
      let (above, behind, w, run1, between) =
        find_above-Finds h index m.key inode ready.i ready.index k (omega (arith, ready.row))
          ready.front (omega arith) in
      let (h1, run2, done) =
        round mem h ready.whole 1 ready.here (omega arith) live unused above behind null w
          (subst (λ r. Between h index m.key r above behind w) ready.row between)
          (λ z. absurd (z refl)) (λ _. refl) in
      let (s1, es1, _, _, ms1, _) = done.lifts mnode s ready.start in
      let (m1, em1, km1, nm1, _, _) = done.lifts node m ready.here in
      let (x1, ex1, kx1, _, _, _) = done.lifts m.next x there in
      let (i, ei, ki, row) = done.new in
      (
        place mem h,
        s1,
        m1,
        x1,
        h1,
        record {
          height = done.height;
          whole = done.whole;
          below = λ a z ez.
              let (z', ez', kz, _) = done.back a z ez in omega (arith, ready.below a z' ez');
          start = es1;
          before = em1;
          leads = nm1;
          here = ex1;
          i = i;
          index = ei;
          row = row;
          front = omega arith;
          old = used_at ready.old (place mem h);
          room = room;
          rooms = rooms;
          within = λ a ea. ground (arith, done.unused a, ready.within a);
          budget = omega (arith, ready.budget);
        },
        done.top,
        raise_round mem k b mnode prev node inode more (load_mnode-ok h index mnode s ready.start)
            (load_mnode-ok h index prev p ready.before) (load_mnode-ok h index node m ready.here)
            (load_mnode-ok h index m.next x there) t run1 run2
            (load_mnode-ok h1 done.whole.index m.next x1 ex1),
        done.same,
        done.lifts,
        done.stays,
        sym er,
        ms1,
        km1,
        done.reached m1 em1,
        omega arith,
      )
