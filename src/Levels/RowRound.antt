-- ===== src/Levels/RowRound.antt =====
-- One round of the loop of bg_raise_ilevel, by its tests.
use hosk.Base.{ℕ, suc, ◌+◌, ◌≡◌, refl, ◌≢◌, true, false, ◌&&◌, leb, ==_true, ==_false}
use hosk.Enclave.{Ptr}
use hosk.Skiplist.{Inode, Mnode, Heap, null, ok}
use hosk.Skiplist.Upper.{Memory, load_inode, load_mnode}
use hosk.Levels.{skip_marked, raise_inodes, find_above, add_above}

module _ (mem : Memory) (row k b : ℕ) (iprev index tall : Ptr) {h : Heap} where
  pub row_end : index ≡ null → raise_inodes mem row (suc k) iprev index tall tall tall b h ≡ ok b h
  unfolding raise_inodes
  row_end end = rw (==_true index null end) refl

  pub row_last :
      {i : Inode}
      → index ≢ null
      → load_inode index h ≡ ok i h
      → i.right ≡ null
      → raise_inodes mem row (suc k) iprev index tall tall tall b h ≡ ok b h
  unfolding raise_inodes
  row_last on load1 end = rw (==_false index null on, load1, ==_true _ null end) refl

  module _ {h1 : Heap} {i : Inode} {at inext : Ptr} (on : index ≢ null)
      (load1 : load_inode index h ≡ ok i h) (further : i.right ≢ null)
      (skip : skip_marked k iprev index i.right h ≡ ok (at, inext) h1) where
    pub row_skipped :
        inext ≡ null → raise_inodes mem row (suc k) iprev index tall tall tall b h ≡ ok b h1
    unfolding raise_inodes
    row_skipped end =
        rw
          (
            ==_false index null on,
            load1,
            ==_false i.right null further,
            skip,
            ==_true inext null end,
          )
          refl

    module _ {p j x : Inode} {pm jm xm : Mnode} (more : inext ≢ null)
        (load2 : load_inode iprev h1 ≡ ok p h1) (load3 : load_mnode p.intermed h1 ≡ ok pm h1)
        (load4 : load_inode at h1 ≡ ok j h1) (load5 : load_mnode j.intermed h1 ≡ ok jm h1)
        (load6 : load_inode inext h1 ≡ ok x h1) (load7 : load_mnode x.intermed h1 ≡ ok xm h1) where
      pub row_leave :
          (leb pm.level row && (leb jm.level row && leb xm.level row)) ≡ false
          → raise_inodes mem row (suc k) iprev index tall tall tall b h
            ≡ raise_inodes mem row k at inext tall tall tall b h1
      unfolding raise_inodes
      row_leave f =
          rw
            (
              ==_false index null on,
              load1,
              ==_false i.right null further,
              skip,
              ==_false inext null more,
              load2,
              load3,
              load4,
              load5,
              load6,
              load7,
              f,
            )
            refl

      pub row_raise :
          {above behind new : Ptr} {h2 : Heap}
          → (leb pm.level row && (leb jm.level row && leb xm.level row)) ≡ true
          → find_above k tall tall tall jm.key h1 ≡ ok (above, behind) h1
          → add_above mem (row + 1) at j.intermed behind h1 ≡ ok new h2
          → raise_inodes mem row (suc k) iprev index tall tall tall b h
            ≡ raise_inodes mem row k at inext new new new 1 h2
      unfolding raise_inodes
      row_raise t run1 run2 =
          rw
            (
              ==_false index null on,
              load1,
              ==_false i.right null further,
              skip,
              ==_false inext null more,
              load2,
              load3,
              load4,
              load5,
              load6,
              load7,
              t,
              run1,
              run2,
            )
            refl
