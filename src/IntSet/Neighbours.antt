-- ===== src/IntSet/Neighbours.antt =====
-- A value put between two neighbours of the list, and one taken out.
use hosk.Base.{
  ℕ, ◌<◌, ◌≡◌, refl, sym, ap, ◌∙◌, ◌≢◌, ◌⊎◌, ◌↔◌, inl, inr, true, none, some, arith, ℕ_discrete,
  ◌==◌, ==_true,
}
use hosk.Enclave.{Ptr}
use hosk.Skiplist.{null}
use hosk.Chain.Link.{linked, linked-IsChain}
use hosk.Chain.Unlink.{unlinked, unlinked-IsChain, unlinked-kept}
use hosk.IntSet.{ListNode, Cells, val_max}
use hosk.IntSet.Sorted.{Has, IsSorted, Around}

module _ {head : Ptr} {h : Cells} (is : IsSorted head h) {val : ℕ} (some_val : 0 < val)
    (inside : val < val_max) {prev next : Ptr} {n m : ListNode}
    (around : Around h val prev next n m) where
  -- Only the second neighbour can have the value.
  Around-Has : Has h val → m.val ≡ val
  Around-Has (p, x, e, k) = ground (
    arith,
    around.leads,
    around.here,
    around.before,
    around.below,
    around.reaches,
    is.chain.least prev p n x m,
  )

  pub found-Has : (m.val == val) ≡ true ↔ Has h val
  found-Has =
      (λ t. (next, m, around.here, ground (arith, t)), λ has. ==_true m.val val (Around-Has has))

  -- A new node between them.
  module _ (new : Ptr) (live : new ≢ null) (unused : h new ≡ none) (differ : m.val ≢ val) where
    abbrev made : ListNode
    made = record { val = val; next = next }

    abbrev pub with_val : Cells
    with_val = linked h new made prev (record n { next = new })

    at_prev : prev ≢ new
    at_prev z = ground (arith, around.before)

    stays :
        (p : Ptr) (x : ListNode)
        → h p ≡ some x
        → (y : ListNode) × (with_val p ≡ some y) × (y.val ≡ x.val)
    stays p x e = elim (ℕ_discrete prev p) [
      | yes z ↦ (record n { next = new }, ground arith, ground (arith, around.before))
      | no ne ↦ (x, ground arith, refl)
    ]

    pub with_val-IsSorted : IsSorted head with_val
    with_val-IsSorted = record {
      chain =
          linked-IsChain is.chain
            (record {
              here = around.before;
              before = omega (arith, around.below);
              after =
                  inr (m, ap h around.leads ∙ around.here, omega (arith, around.reaches, differ));
            })
            (λ z. omega (arith, around.below)) new made (record n { next = new }) unused live refl
            (sym around.leads) refl refl;
      live = λ p x e. ground (arith, is.live p x, is.live prev n around.before);
      first = let (x, e, z) = is.first in let (y, ey, ky) = stays head x e in (y, ey, ky ∙ z);
      last = let (p, x, e, z) = is.last in let (y, ey, ky) = stays p x e in (p, y, ey, ky ∙ z);
    }

    pub with_val-Has : (j : ℕ) → Has with_val j ↔ (Has h j ⊎ (j ≡ val))
    with_val-Has j = (
      λ (p, x, e, k). elim (ℕ_discrete prev p) [
        | yes z ↦ inl (prev, n, around.before, ground arith)
        | no ne ↦ elim (ℕ_discrete new p) [
          | yes w ↦ inr (ground arith)
          | no nw ↦ inl (p, x, ground arith, k)
        ]
      ],
      elim [
        | inl (p, x, e, k) ↦ let (y, ey, ky) = stays p x e in (p, y, ey, ky ∙ k)
        | inr z ↦ (new, made, ground (arith, at_prev), sym z)
      ],
    )

  -- The second one taken out.
  module _ (same : m.val ≡ val) where
    abbrev moved : ListNode
    moved = record n { next = m.next }

    abbrev pub without_val : Cells
    without_val = unlinked h prev moved next

    leaves :
        (p : Ptr) (x : ListNode)
        → h p ≡ some x
        → p ≢ next
        → (y : ListNode) × (without_val p ≡ some y) × (y.val ≡ x.val)
    leaves =
        unlinked-kept is.chain around.before around.here around.leads (is.live next m around.here)
          moved refl refl

    back :
        (p : Ptr) (x : ListNode)
        → without_val p ≡ some x
        → (p ≢ next) × ((y : ListNode) × (h p ≡ some y) × (y.val ≡ x.val))
    back p x e = elim (ℕ_discrete prev p) [
      | yes z ↦ (
        λ w. ground (arith, around.before, around.here, around.below, same),
        (
          n,
          ap h (sym z) ∙ around.before,
          ground (arith, around.before, around.here, around.below, same),
        ),
      )
      | no ne ↦ ((λ w. ground arith), (x, ground arith, refl))
    ]

    pub without_val-IsSorted : IsSorted head without_val
    without_val-IsSorted = record {
      chain =
          unlinked-IsChain is.chain around.before around.here around.leads
            (is.live next m around.here) moved refl refl;
      live = λ p x e. let (_, (y, ey, ky)) = back p x e in is.live p y ey;
      first =
          let (x, e, z) = is.first in
          let (y, ey, ky) = leaves head x e (λ w. ground (arith, around.here)) in (y, ey, ky ∙ z);
      last =
          let (p, x, e, z) = is.last in
          let (y, ey, ky) = leaves p x e (λ w. ground (arith, around.here)) in (p, y, ey, ky ∙ z);
    }

    pub without_val-Has : (j : ℕ) → Has without_val j ↔ (Has h j × (j ≢ val))
    without_val-Has j = (
      λ (p, x, e, k).
          let (off, (y, ey, ky)) = back p x e in
          ((p, y, ey, ky ∙ k), λ z. off (is.chain.unique p next y m ey around.here (omega arith))),
      λ ((p, x, e, k), ne).
          let (y, ey, ky) = leaves p x e (λ w. ground (arith, around.here)) in (p, y, ey, ky ∙ k),
    )
