-- ===== src/Sweep/Clear.antt =====
-- The loop of reset_index, and the index layer that it leaves.
use hosk.Base.{
  ℕ, zero, suc, ◌+◌, ◌-◌, ◌≤◌, ◌<◌, ◌≡◌, refl, sym, ◌∙◌, ◌≢◌, inl, inr, some, arith, ℕ_discrete,
  ==_true, ==_false,
}
use hosk.Enclave.{Ptr}
use hosk.Skiplist.{Node, Mnode, Heap, Run, null, ok}
use hosk.Index.Search.{load_mnode-ok}
use hosk.Sweep.{reset_levels}
use hosk.Sweep.Trav.{Below}
use hosk.Sweep.Reset.{
  IsFlat, SameKeys, SameKeys-trans, set_at, set_levels-ok, was, becomes, set_at-IsFlat,
  set_at-SameKeys,
}

-- Behind the key `k` no node has a level, and up to it each node has the level that it had.
abbrev pub Cleared : ℕ → Heap → Heap → Type 0
Cleared k h h' =
    (a : Ptr) (y : Mnode)
    → h.mnodes a ≡ some y
    → (x : Mnode) × (h'.mnodes a ≡ some x)
      × (x.key ≡ y.key)
      × (x.next ≡ y.next)
      × (k < y.key → x.level ≡ 0)
      × (y.key ≤ k → x.level ≡ y.level)

abbrev pub Clears : ℕ → Heap → Run (Unit {0}) → Type 0
Clears k h r = (h' : Heap) × (r ≡ ok tt h') × IsFlat h' × SameKeys h h' × Cleared k h h'

SameKeys-refl : (h : Heap) → SameKeys h h
SameKeys-refl h = record {
  maps = λ j v. (λ x. x, λ x. x);
  tracks = λ j b. (λ x. x, λ x. x);
  inodes = refl;
  keeps = λ p n e. (n, e, refl);
}

-- The last node.
last-Cleared :
    (h : Heap) (q : Ptr) (n : Mnode)
    → IsFlat h
    → h.mnodes q ≡ some n
    → n.next ≡ null
    → Cleared n.key h h
last-Cleared h q n flat here end a y e =
    (y, e, refl, refl, λ lt. absurd (flat.index.mnodes.goes_on q a n y here e lt end), λ _. refl)

module _ (h : Heap) (flat : IsFlat h) {q p : Ptr} {n m : Mnode} (before : h.mnodes q ≡ some n)
    (leads : n.next ≡ p) (here : h.mnodes p ≡ some m) (d : Node)
    (there : h.nodes m.node ≡ some d) where
  -- The next node.
  next-Cleared :
      (h' : Heap) → Cleared m.key (set_at h flat 0 p m here d there) h' → Cleared n.key h h'
  next-Cleared h' rest a y e =
      let (x, ex, kx, nx, _, which) = becomes h flat 0 p m here d there a y e in
      let (z, ez, kz, nz, above, upto) = rest a x ex in
      let lt : n.key < m.key =
        (let (m', em', far) =
            flat.index.mnodes.follows q n before (ground (arith, flat.index.live_mnode p m here)) in
          ground arith) in
      (
        z,
        ez,
        omega arith,
        nz ∙ nx,
        λ far. elim which [
          | inl (at, level) ↦ ground (arith, upto)
          | inr (off, same) ↦
              let le : m.key ≤ y.key =
                ground (arith, flat.index.mnodes.least q a n y m before e far) in
              let ne : m.key ≢ y.key = λ k. off (flat.index.mnodes.unique a p y m e here (sym k)) in
              above (omega arith)
        ],
        λ near. elim which [
          | inl (at, level) ↦ absurd (ground arith)
          | inr (off, same) ↦ ground (arith, upto)
        ],
      )

pub reset_levels-Clears :
    (fuel bound : ℕ) (h : Heap) (q : Ptr) (n : Mnode)
    → IsFlat h
    → Below bound h
    → h.mnodes q ≡ some n
    → 0 < fuel
    → ((m : Mnode) → h.mnodes n.next ≡ some m → bound - m.key + 1 < fuel)
    → Clears n.key h (reset_levels fuel n.next h)
unfolding reset_levels
reset_levels-Clears zero bound h q n flat below here some_fuel enough = absurd (omega arith)
reset_levels-Clears (suc k) bound h q n flat below here some_fuel enough =
    elim (ℕ_discrete n.next null) [
      | yes end ↦ (
        h,
        rw (==_true n.next null end) refl,
        flat,
        SameKeys-refl h,
        last-Cleared h q n flat here end,
      )
      | no more ↦
          let (m, em, lt) = flat.index.mnodes.follows q n here more in
          let (d, ed, _) = flat.index.node n.next m em in
          let h1 = set_at h flat 0 n.next m em d ed in
          let flat1 : IsFlat h1 = set_at-IsFlat h flat 0 n.next m em d ed in
          let m' : Mnode = record m { level = 0 } in
          let here1 : h1.mnodes n.next ≡ some m' = ground arith in
          let big = below n.next m em in
          let fuel_left = enough m em in
          let (h', run, flat', same, cleared) =
            reset_levels-Clears k bound h1 n.next m' flat1
              (λ a x ex.
                let (y, ey, ky, _, _, _, _) = was h flat 0 n.next m em d ed a x ex in
                omega (arith, below a y ey))
              here1 (omega arith)
              (λ x ex.
                let (y, ey, far) =
                  flat1.index.mnodes.follows n.next m' here1 (flat1.index.live_mnode m.next x ex) in
                ground arith) in
          (
            h',
            rw
                (
                  ==_false n.next null more,
                  set_levels-ok h flat 0 n.next m em d ed,
                  load_mnode-ok h1 flat1.index n.next m' here1,
                )
                run,
            flat',
            SameKeys-trans h h1 h' (set_at-SameKeys h flat 0 n.next m em d ed) same,
            next-Cleared h flat here refl em d ed h' cleared,
          )
    ]
