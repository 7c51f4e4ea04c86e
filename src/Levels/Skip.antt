-- ===== src/Levels/Skip.antt =====
-- The loop within bg_raise_ilevel that unlinks index nodes over marked nodes.
use hosk.Base.{
  ℕ, zero, suc, ◌+◌, ◌<◌, ◌≡◌, refl, ◌∙◌, ◌≢◌, inl, inr, true, false, some, arith, ℕ_discrete,
  Bool-cases, ==_true, ==_false,
}
use hosk.Enclave.{Ptr}
use hosk.Skiplist.{Inode, Heap, Run, null, ok, Mnode}
use hosk.Skiplist.Upper.{load_inode, store_inode}
use hosk.Index.{IsSkiplist}
use hosk.Index.Inodes.{Right, relinked, relinked-IsSkiplist}
use hosk.Index.Search.{load_inode-ok, load_mnode-ok}
use hosk.Sweep.Trav.{Below}
use hosk.Levels.{skip_marked, load_mnode}
use hosk.Levels.Bottom.{Stays, Stays-refl, Stays-trans}
use hosk.Levels.Raise.{Within}

-- What the loop leaves: the node where it ends is behind `key` in the same row.
pub record Skipped (height : Ptr → ℕ) (sentinel iprev : Ptr) (key row : ℕ) (h : Heap) (index : Ptr)
    (h' : Heap) : Type 0 where
  pub whole : IsSkiplist height sentinel h'
  pub only : h' ≡ record h { inodes = h'.inodes }
  pub within : Within h h'
  pub stays : Stays row height height h h'
  pub i : Inode
  pub here : h'.inodes index ≡ some i
  pub level : height index ≡ row
  pub behind : key < i.key

abbrev pub Skips : (Ptr → ℕ) → Ptr → Ptr → ℕ → ℕ → Heap → Run (Ptr × Ptr) → Type 0
Skips height sentinel iprev key row h r =
    (index : Ptr) × (h' : Heap) × (done : Skipped height sentinel iprev key row h index h') × (r
      ≡ ok (index, done.i.right) h')

module _ {height : Ptr → ℕ} {sentinel : Ptr} (h : Heap) (whole : IsSkiplist height sentinel h)
    (iprev : Ptr) (p : Inode) (before : h.inodes iprev ≡ some p) (used : 0 < height iprev)
    (index : Ptr) (i : Inode) (here : h.inodes index ≡ some i) (level : height index ≡ height iprev)
    (far : p.key < i.key) where
  -- The right neighbour of `index` is one that `iprev` may have.
  pub beyond : i.right ≢ null → Right h whole.index p.key (height iprev) i.right
  beyond ne =
      let (r, er, lt, row) = whole.index.right index i here (omega arith) ne in
      (r, er, omega arith, row ∙ level)

  abbrev pub unlinked : Heap
  unlinked = relinked h whole.index iprev p i.right before beyond

  pub unlinked-IsSkiplist : IsSkiplist height sentinel unlinked
  unlinked-IsSkiplist = relinked-IsSkiplist h whole iprev p i.right before beyond

  pub unlinked-Stays : Stays (height iprev) height height h unlinked
  unlinked-Stays a y e = elim (ℕ_discrete iprev a) [
    | yes z ↦ (
      record p { right = i.right },
      ground arith,
      ground (arith, before),
      ground (arith, before),
      ground (arith, before),
      refl,
      λ ne. ground arith,
    )
    | no ne ↦ (y, ground arith, refl, refl, refl, refl, λ _. refl)
  ]

  pub unlinked-Within : Within h unlinked
  unlinked-Within a e = ground (arith, before)

  pub store_unlinked : store_inode iprev (record p { right = i.right }) h ≡ ok tt unlinked
  unfolding store_inode
  store_unlinked = refl

-- A round of the loop, by its tests.
module _ (k : ℕ) (iprev index inext : Ptr) {h h1 : Heap} {i p : Inode} {m : Mnode}
    (load1 : load_inode index h ≡ ok i h) (load2 : load_mnode i.intermed h ≡ ok m h)
    (load3 : load_inode iprev h ≡ ok p h)
    (link : store_inode iprev (record p { right = inext }) h ≡ ok tt h1) where
  skip_stop : m.marked ≡ false → skip_marked (suc k) iprev index inext h ≡ ok (index, inext) h
  unfolding skip_marked
  skip_stop f = rw (load1, load2, f) refl

  skip_end :
      m.marked ≡ true
      → inext ≡ null
      → skip_marked (suc k) iprev index inext h ≡ ok (index, inext) h1
  unfolding skip_marked
  skip_end t end = rw (load1, load2, t, load3, link, ==_true inext null end) refl

  skip_next :
      (x : Inode)
      → m.marked ≡ true
      → inext ≢ null
      → load_inode inext h1 ≡ ok x h1
      → skip_marked (suc k) iprev index inext h ≡ skip_marked k iprev inext x.right h1
  unfolding skip_marked
  skip_next x t on load4 = rw (load1, load2, t, load3, link, ==_false inext null on, load4) refl

pub skip_marked-Skips :
    (fuel bound : ℕ) {height : Ptr → ℕ} {sentinel : Ptr} (h : Heap)
    → IsSkiplist height sentinel h
    → Below bound h
    → (iprev : Ptr) (p : Inode) → h.inodes iprev ≡ some p
    → 0 < height iprev
    → (index : Ptr) (i : Inode) → h.inodes index ≡ some i
    → height index ≡ height iprev
    → p.key < i.key
    → bound < fuel + i.key
    → Skips height sentinel iprev p.key (height iprev) h (skip_marked fuel iprev index i.right h)
unfolding skip_marked
skip_marked-Skips zero bound h whole below iprev p before used index i here level far enough =
    let (m, em, km, _) = whole.index.intermed index i here (omega arith) in
    absurd (omega (arith, below i.intermed m em))
skip_marked-Skips (suc k) bound {height} h whole below iprev p before used index i here level far
      enough =
    let (m, em, km, _) = whole.index.intermed index i here (omega arith) in
    let load1 = load_inode-ok h whole.index index i here in
    let load2 = load_mnode-ok h whole.index i.intermed m em in
    let load3 = load_inode-ok h whole.index iprev p before in
    let h1 = unlinked h whole iprev p before used index i here level far in
    let whole1 = unlinked-IsSkiplist h whole iprev p before used index i here level far in
    let stays1 = unlinked-Stays h whole iprev p before used index i here level far in
    let within1 = unlinked-Within h whole iprev p before used index i here level far in
    let link = store_unlinked h whole iprev p before used index i here level far in
    let p1 : Inode = record p { right = i.right } in
    let before1 : h1.inodes iprev ≡ some p1 = ground arith in
    elim (Bool-cases m.marked) [
      | inr f ↦ (
        index,
        h,
        record {
          whole = whole;
          only = refl;
          within = λ a e. e;
          stays = Stays-refl (height iprev) height h;
          i = i;
          here = here;
          level = level;
          behind = far;
        },
        skip_stop k iprev index i.right load1 load2 load3 link f,
      )
      | inl t ↦ elim (ℕ_discrete i.right null) [
        | yes end ↦ (
          index,
          h1,
          record {
            whole = whole1;
            only = refl;
            within = within1;
            stays = stays1;
            i = i;
            here = ground (arith, here, before);
            level = level;
            behind = far;
          },
          skip_end k iprev index i.right load1 load2 load3 link t end,
        )
        | no on ↦
            let (r, er, lt, row) = whole.index.right index i here (omega arith) on in
            let here1 : h1.inodes i.right ≡ some r = ground (arith, er, before) in
            let (index', h', done, run) =
              skip_marked-Skips k bound h1 whole1 below iprev p1 before1 used i.right r here1
                (row ∙ level) (omega arith) (omega arith) in
            (
              index',
              h',
              record {
                whole = done.whole;
                only = done.only ∙ refl;
                within = λ a e. done.within a (within1 a e);
                stays = Stays-trans (height iprev) height height height h h1 h' stays1 done.stays;
                i = done.i;
                here = done.here;
                level = done.level;
                behind = done.behind;
              },
              skip_next k iprev index i.right load1 load2 load3 link r t on
                    (load_inode-ok h1 whole1.index i.right r here1)
                  ∙ run,
            )
      ]
    ]
