-- ===== src/Sweep/Loop.antt =====
-- The loop of bg_trav_mnodes ends, and sweeps what stands behind the node where it starts.
use mathlib.Core.Path.{subst}
use hosk.Base.{
  ℕ, zero, suc, ◌+◌, ◌-◌, ◌<◌, ◌≡◌, refl, ◌∙◌, ◌⊎◌, inl, inr, true, some, arith, ℕ_discrete,
  Bool-cases, ==_true, ==_false,
}
use hosk.Enclave.{Ptr}
use hosk.Skiplist.{Mnode, Heap, null}
use hosk.Index.{IsSkiplist}
use hosk.Index.Search.{load_mnode-ok, load_inode-ok}
use hosk.Sweep.{Dels, count_node, trav_mnodes, bg_trav_mnodes}
use hosk.Sweep.Trav.{
  Sweeps, Below, Swept, bg_mremove-removes, bg_mremove-keeps, removed, removed-IsSkiplist,
  removed-Sweeps, kept-Sweeps,
}

-- Nothing stands behind a node that leads nowhere.
none-Sweeps :
    {height : Ptr → ℕ} {sentinel : Ptr} (h : Heap) (p : Ptr) (n : Mnode)
    → IsSkiplist height sentinel h
    → h.mnodes p ≡ some n
    → n.next ≡ null
    → Sweeps n.key h h
none-Sweeps h p n whole here end j b l = (
  λ (a, z, e, kz, mz, lz). (
    (a, z, e, kz, mz, lz),
    λ (lt, _, _). whole.index.mnodes.goes_on p a n z here e (omega arith) end,
  ),
  λ (s, _). s,
)

Below-removed :
    {height : Ptr → ℕ} {sentinel : Ptr} (h : Heap) (whole : IsSkiplist height sentinel h)
    (bound : ℕ) {p q : Ptr} {n m : Mnode} (before : h.mnodes p ≡ some n)
    (here : h.mnodes q ≡ some m) (leads : n.next ≡ q)
    → Below bound h
    → Below bound (removed h whole before here leads)
Below-removed h whole bound {p} {q} {n} {m} before here leads below a x e =
    ground (arith, below a x, below p n before)

is_swept : (m : Mnode) → ((m.level ≡ 0) × (m.marked ≡ true)) ⊎ ¬ ((m.level ≡ 0) × (m.marked ≡ true))
is_swept m = elim (ℕ_discrete m.level 0) [
  | yes z ↦ elim (Bool-cases m.marked) [ inl t ↦ inl (z, t) | inr f ↦ inr (λ (_, t). ground arith) ]
  | no ne ↦ inr (λ (z, _). ne z)
]

trav_mnodes-Swept :
    (fuel bound : ℕ) {height : Ptr → ℕ} {sentinel : Ptr} (h : Heap) (p : Ptr) (n : Mnode) (d : Dels)
    → IsSkiplist height sentinel h
    → Below bound h
    → h.mnodes p ≡ some n
    → 0 < fuel
    → ((m : Mnode) → h.mnodes n.next ≡ some m → bound - m.key + 1 < fuel)
    → Swept height sentinel n.key h (trav_mnodes fuel p n.next d h)
unfolding trav_mnodes
trav_mnodes-Swept zero bound h p n d whole below here some_fuel enough = absurd (omega arith)
trav_mnodes-Swept (suc k) bound h p n d whole below here some_fuel enough =
    elim (ℕ_discrete n.next null) [
      | yes end ↦
          (h, d, rw (==_true n.next null end) refl, whole, refl, none-Sweeps h p n whole here end)
      | no more ↦
          let (m, em, lt) = whole.index.mnodes.follows p n here more in
          let big = below n.next m em in
          let fuel_left = enough m em in
          elim (is_swept m) [
            | inl (level, mark) ↦
                let n' : Mnode = record n { next = m.next } in
                let h1 = removed h whole here em refl in
                let whole1 = removed-IsSkiplist h whole here em refl level mark in
                let here1 : h1.mnodes p ≡ some n' = ground (arith, here, em) in
                let (h', d', run, whole', rest, sweeps) =
                  trav_mnodes-Swept k bound h1 p n' d whole1
                    (Below-removed h whole bound here em refl below) here1 (omega arith)
                    (λ x ex.
                      let (y, ey, far) =
                        whole.index.mnodes.follows n.next m em
                          (whole1.index.live_mnode m.next x ex) in
                      ground arith) in
                (
                  h',
                  d',
                  rw
                      (
                        ==_false n.next null more,
                        bg_mremove-removes h whole here em refl level mark,
                        load_mnode-ok h1 whole1.index p n' here1,
                      )
                      run,
                  whole',
                  rest,
                  removed-Sweeps h whole here em refl level mark h' sweeps,
                )
            | inr stays ↦
                let (h', d', run, whole', rest, sweeps) =
                  trav_mnodes-Swept k bound h n.next m (count_node m.marked m.level d) whole below
                    em (omega arith)
                    (λ x ex.
                      let (y, ey, far) =
                        whole.index.mnodes.follows n.next m em
                          (whole.index.live_mnode m.next x ex) in
                      ground arith) in
                (
                  h',
                  d',
                  rw
                      (
                        ==_false n.next null more,
                        bg_mremove-keeps h whole here em refl stays,
                        load_mnode-ok h whole.index n.next m em,
                      )
                      run,
                  whole',
                  rest,
                  kept-Sweeps h whole here em refl stays h' sweeps,
                )
          ]
    ]

-- On a skip list with all keys below a bound, with more fuel than the bound: bg_trav_mnodes ends, it
-- takes out of the intermediate layer just the nodes that are marked and have no level, it changes
-- neither the other nodes' keys, marks and levels nor the other layers, and the three layers still
-- fit together.
pub bg_trav_mnodes-Swept :
    (fuel bound : ℕ) {height : Ptr → ℕ} {sentinel : Ptr} (h : Heap) (d : Dels)
    → IsSkiplist height sentinel h
    → Below bound h
    → bound + 1 < fuel
    → Swept height sentinel 0 h (bg_trav_mnodes fuel sentinel d h)
unfolding bg_trav_mnodes
bg_trav_mnodes-Swept fuel bound h d whole below enough =
    let (i, ei, zero_key) = whole.start in
    let (n, en, kn, up) = whole.index.intermed _ i ei whole.used in
    let (h', d', run, whole', rest, sweeps) =
      trav_mnodes-Swept fuel bound h i.intermed n d whole below en (omega arith)
        (λ m em. omega (arith, below n.next m em)) in
    (
      h',
      d',
      rw (load_inode-ok h whole.index _ i ei, load_mnode-ok h whole.index i.intermed n en) run,
      whole',
      rest,
      subst (λ k. Sweeps k h h') (kn ∙ zero_key) sweeps,
    )
