-- ===== src/Index/Search.antt =====
-- The searches in the index layer and in the intermediate layer end, in front of or at the key.
use hosk.Base.{
  ℕ, zero, suc, ◌+◌, ◌-◌, ◌≤◌, ◌<◌, ◌≡◌, ◌≢◌, inl, inr, refl, some, arith, ℕ_discrete, dec_lt, ◌==◌,
  ==_true, ==_false, lt→ltb, ltb-false, if◌then◌else◌,
}
use hosk.Enclave.{Ptr}
use hosk.Skiplist.{Inode, Mnode, Heap, null, ok, Run, pure}
use hosk.Skiplist.Upper.{load_inode, load_mnode, index_search, mnode_search}
use hosk.Chain
use hosk.Index.{IsIndex, mnode_key, mnode_next}

-- Where a search in the intermediate layer ends.
abbrev pub At : Heap → ℕ → Ptr → Mnode → Type 0
At h = Chain.At mnode_key mnode_next h.mnodes

module _ {height : Ptr → ℕ} (h : Heap) (index : IsIndex height h) where
  pub load_mnode-ok : (p : Ptr) (m : Mnode) → h.mnodes p ≡ some m → load_mnode p h ≡ ok m h
  unfolding load_mnode
  load_mnode-ok p m e = ground (arith, index.live_mnode p m e)

  pub load_inode-ok : (p : Ptr) (i : Inode) → h.inodes p ≡ some i → load_inode p h ≡ ok i h
  unfolding load_inode
  load_inode-ok p i e = ground (arith, index.live_inode p i e)

  -- It returns a node of the intermediate layer that is not behind the key.
  abbrev Finds : ℕ → Run Ptr → Type 0
  Finds key r = (q : Ptr) × (m : Mnode) × (r ≡ ok q h) × (h.mnodes q ≡ some m) × (m.key ≤ key)

  found :
      (key : ℕ) (p : Ptr) (i : Inode)
      → h.inodes p ≡ some i
      → 0 < height p
      → i.key ≤ key
      → Finds key (ok i.intermed h)
  found key p i e used le =
      let (m, em, k, _) = index.intermed p i e used in (i.intermed, m, refl, em, omega arith)

  -- The branch that goes down, by what the search from there finds.
  descends :
      (k key : ℕ) (p : Ptr) (i : Inode)
      → h.inodes p ≡ some i
      → 0 < height p
      → i.key ≤ key
      → (i.down ≢ null → Finds key (index_search k key i.down h))
      → Finds key ((if i.down == null then pure i.intermed else index_search k key i.down) h)
  descends k key p i e used le lower = elim (ℕ_discrete i.down null) [
    | yes z ↦ rw (==_true i.down null z) (found key p i e used le)
    | no ne ↦ rw (==_false i.down null ne) (lower ne)
  ]

  pub index_search-finds :
      (fuel key : ℕ) (p : Ptr) (i : Inode)
      → h.inodes p ≡ some i
      → 0 < height p
      → i.key ≤ key
      → height p + (key - i.key) < fuel
      → Finds key (index_search fuel key p h)
  unfolding index_search
  index_search-finds zero key p i e used le enough = absurd (omega arith)
  index_search-finds (suc k) key p i e used le enough =
      let under : Finds key
          ((if i.down == null then pure i.intermed else index_search k key i.down) h) =
        descends k key p i e used le λ ne.
          let (d, ed, kd, used_d, lower) = index.down p i e used ne in
          index_search-finds k key i.down d ed used_d (omega arith) (omega arith) in
      elim (ℕ_discrete i.right null) [
        | yes z ↦ rw (load_inode-ok p i e, ==_true i.right null z) under
        | no ne ↦
            let (r, er, far, level) = index.right p i e used ne in
            elim (dec_lt key r.key) [
              | yes lt ↦
                  rw
                    (
                      load_inode-ok p i e,
                      ==_false i.right null ne,
                      load_inode-ok i.right r er,
                      lt→ltb key r.key lt,
                    )
                    under
              | no ge ↦ elim (ℕ_discrete r.key key) [
                | yes same ↦
                    rw
                      (
                        load_inode-ok p i e,
                        ==_false i.right null ne,
                        load_inode-ok i.right r er,
                        ltb-false key r.key (omega arith),
                        ==_true r.key key same,
                      )
                      (found key p i e used le)
                | no differ ↦
                    rw
                      (
                        load_inode-ok p i e,
                        ==_false i.right null ne,
                        load_inode-ok i.right r er,
                        ltb-false key r.key (omega arith),
                        ==_false r.key key differ,
                      )
                      (index_search-finds k key i.right r er (omega arith) (omega arith)
                        (omega arith))
              ]
            ]
      ]

  pub mnode_search-At :
      (fuel key : ℕ) (p : Ptr) (m : Mnode)
      → h.mnodes p ≡ some m
      → m.key ≤ key
      → key - m.key < fuel
      → (q : Ptr) × (x : Mnode) × (mnode_search fuel key p h ≡ ok q h) × At h key q x
  unfolding mnode_search
  mnode_search-At zero key p m e le enough = absurd (omega arith)
  mnode_search-At (suc k) key p m e le enough = elim (ℕ_discrete m.next null) [
    | yes z ↦ (
      p,
      m,
      rw (load_mnode-ok p m e, ==_true m.next null z),
      record { here = e; before = le; after = inl z },
    )
    | no ne ↦
        let (x, ex, far) = index.mnodes.follows p m e ne in
        elim (dec_lt key x.key) [
          | yes lt ↦ (
            p,
            m,
            rw (
              load_mnode-ok p m e,
              ==_false m.next null ne,
              load_mnode-ok m.next x ex,
              lt→ltb key x.key lt,
            ),
            record { here = e; before = le; after = inr (x, ex, lt) },
          )
          | no ge ↦
              let (q, y, run, at) = mnode_search-At k key m.next x ex (omega arith) (omega arith) in
              (
                q,
                y,
                rw
                    (
                      load_mnode-ok p m e,
                      ==_false m.next null ne,
                      load_mnode-ok m.next x ex,
                      ltb-false key x.key (omega arith),
                    )
                    run,
                at,
              )
        ]
  ]
