-- ===== src/Helper/Update.antt =====
-- What update_intermediate_layer does to the keys of the intermediate layer and to their marks.
use hosk.Index.Change.{mnodes-IsSkiplist, remarked-IsSkiplist}
use hosk.Base.{
  ℕ, ◌≡◌, refl, sym, ◌∙◌, ◌≢◌, ◌⊎◌, inl, inr, ◌↔◌, Bool, none, some, arith, ℕ_discrete, ◌≤◌,
}
use hosk.Enclave.{Ptr}
use hosk.Skiplist.{Node, Mnode, Heap, null, write}
use hosk.Chain.{At-unique}
use hosk.Chain.Link.{linked, linked-IsChain}
use hosk.Index.{IsSkiplist}
use hosk.Index.Search.{At}

-- Whether the intermediate layer has the key, with the mark.
abbrev pub Tracks : Heap → ℕ → Bool → Type 0
Tracks h j b = (p : Ptr) × (m : Mnode) × (h.mnodes p ≡ some m) × (m.key ≡ j) × (m.marked ≡ b)

-- At `key` the layer has what `P` says, at other keys what it had.
abbrev pub Sets : Heap → Heap → ℕ → (Bool → Type 0) → Type 0
Sets h h' key P =
    (j : ℕ) (b : Bool) → Tracks h' j b ↔ ((j ≡ key) × P b) ⊎ ((j ≢ key) × Tracks h j b)

module _ {height : Ptr → ℕ} {sentinel : Ptr} (h : Heap) (whole : IsSkiplist height sentinel h)
    {key : ℕ} {q : Ptr} {m : Mnode} (at : At h key q m) where
  -- A new mark at the node where the search ends.
  module _ (b : Bool) where
    abbrev pub marked : Heap
    marked = record h { mnodes = write h.mnodes q (some (record m { marked = b })) }

    pub marked-IsSkiplist : IsSkiplist height sentinel marked
    marked-IsSkiplist =
        remarked-IsSkiplist h whole q m (record m { marked = b }) at.here refl refl refl
          (omega arith) λ _. refl

    pub marked-Sets : m.key ≡ key → Sets h marked key (λ c. c ≡ b)
    marked-Sets same j c = (
      λ (p, x, e, k, mk). elim (ℕ_discrete q p) [
        | yes z ↦ inl (ground arith, ground arith)
        | no ne ↦
            let old : h.mnodes p ≡ some x = ground arith in
            inr (ground (arith, at.here, whole.index.mnodes.unique p q x m), (p, x, old, k, mk))
      ],
      elim [
        | inl (z, w) ↦ (q, record m { marked = b }, ground arith, ground arith, sym w)
        | inr (ne, (p, x, e, k, mk)) ↦ (p, x, ground (arith, at.here), k, mk)
      ],
    )

  -- No change.
  module _ (P : Bool → Type 0) where
    pub same-Sets : m.key ≡ key → ((c : Bool) → P c ↔ (c ≡ m.marked)) → Sets h h key P
    same-Sets same is j c = (
      λ (p, x, e, k, mk). elim (ℕ_discrete j key) [
        | yes z ↦ inl (z, (is c).1 (ground (arith, At-unique whole.index.mnodes at p x, at.here)))
        | no ne ↦ inr (ne, (p, x, e, k, mk))
      ],
      elim [ inl (z, pc) ↦ (q, m, at.here, same ∙ sym z, sym ((is c).0 pc)) | inr (ne, t) ↦ t ],
    )

    pub missing-Sets : m.key ≢ key → ((c : Bool) → ¬ P c) → Sets h h key P
    missing-Sets differ never j c = (
      λ (p, x, e, k, mk).
          inr ((λ z. differ (At-unique whole.index.mnodes at p x e (k ∙ z)).1), (p, x, e, k, mk)),
      elim [ inl (z, pc) ↦ absurd (never c pc) | inr (ne, t) ↦ t ],
    )

  pub missing : m.key ≢ key → (c : Bool) → ¬ Tracks h key c
  missing differ c (p, x, e, k, mk) = differ (At-unique whole.index.mnodes at p x e k).1

  -- A new unmarked node behind it.
  module _ (differ : m.key ≢ key) (new : Ptr) (live : new ≢ null) (unused : h.mnodes new ≡ none)
      (made : Mnode) (to_node : (n : Node) × (h.nodes made.node ≡ some n) × (n.key ≡ made.key))
      (at_key : made.key ≡ key) (to_next : made.next ≡ m.next) where
    abbrev pub added : Heap
    added = record h { mnodes = linked h.mnodes new made q (record m { next = new }) }

    apart : q ≢ new
    apart z = ground (arith, at.here)

    good_added :
        (p : Ptr) (x : Mnode)
        → added.mnodes p ≡ some x
        → (p ≢ null) × ((n : Node) × (h.nodes x.node ≡ some n) × (n.key ≡ x.key))
    good_added p x e = elim (ℕ_discrete q p) [
      | yes z ↦
          let (n, en, kn) = whole.index.node q m at.here in
          (ground (arith, whole.index.live_mnode q m at.here), (n, ground arith, ground arith))
      | no ne ↦ elim (ℕ_discrete new p) [
        | yes z ↦ let (n, en, kn) = to_node in (ground arith, (n, ground arith, ground arith))
        | no ne_new ↦
            let old : h.mnodes p ≡ some x = ground arith in
            (whole.index.live_mnode p x old, whole.index.node p x old)
      ]
    ]

    keeps_added :
        (p : Ptr) (x : Mnode)
        → h.mnodes p ≡ some x
        → 1 ≤ x.level
        → (y : Mnode) × (added.mnodes p ≡ some y)
          × (y.key ≡ x.key)
          × (x.level ≤ y.level)
          × (x.key ≡ 0 → y.level ≡ x.level)
    keeps_added p x e up = elim (ℕ_discrete q p) [
      | yes z ↦ (
        record m { next = new },
        ground arith,
        ground (arith, at.here),
        ground (arith, at.here),
        λ _. ground (arith, at.here),
      )
      | no ne ↦ (x, ground arith, refl, omega arith, λ _. refl)
    ]

    pub added-IsSkiplist : IsSkiplist height sentinel added
    added-IsSkiplist =
        mnodes-IsSkiplist h whole added.mnodes
          (linked-IsChain whole.index.mnodes at differ new made (record m { next = new }) unused
            live at_key to_next refl refl)
          good_added keeps_added

    pub added-Sets : Sets h added key (λ c. c ≡ made.marked)
    added-Sets j c = (
      λ (p, x, e, k, mk). elim (ℕ_discrete q p) [
        | yes z ↦ inr (ground (arith, at.here), (q, m, at.here, ground arith, ground arith))
        | no ne ↦ elim (ℕ_discrete new p) [
          | yes z ↦ inl (ground arith, ground arith)
          | no ne_new ↦
              let old : h.mnodes p ≡ some x = ground arith in
              inr ((λ z. missing differ x.marked (p, x, old, k ∙ z, refl)), (p, x, old, k, mk))
        ]
      ],
      elim [
        | inl (z, w) ↦ (new, made, ground (arith, apart), at_key ∙ sym z, sym w)
        | inr (ne, (p, x, e, k, mk)) ↦ elim (ℕ_discrete q p) [
          | yes z ↦ (
            q,
            record m { next = new },
            ground arith,
            ground (arith, at.here),
            ground (arith, at.here),
          )
          | no ne_q ↦ (p, x, ground arith, k, mk)
        ]
      ],
    )
