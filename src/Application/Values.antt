-- ===== src/Application/Values.antt =====
-- What writes to the data layer do to the map that it stands for.
use hosk.Base.{ℕ, ◌≡◌, sym, ◌∙◌, ◌≢◌, ◌↔◌, ◌⊎◌, inl, inr, none, some, arith, ℕ_discrete}
use hosk.Enclave.{Ptr}
use hosk.Skiplist.{Node, Store, Word, null, write}
use hosk.Chain.{At-unique}
use hosk.Application.Layer.{IsLayer, Maps, At, fresh_node}
use hosk.Chain.Link.{linked}

-- The map with `val` put in at `key`, and with `key` taken out.
abbrev pub Puts : Store Node → Store Node → ℕ → Word → Type 0
Puts s t key val =
    (j : ℕ) (v : Word) → Maps t j v ↔ ((j ≡ key) × (v ≡ val)) ⊎ ((j ≢ key) × Maps s j v)

abbrev pub Drops : Store Node → Store Node → ℕ → Type 0
Drops s t key = (j : ℕ) (v : Word) → Maps t j v ↔ ((j ≢ key) × Maps s j v)

-- A write of another value to the node with the key.
module _ {s : Store Node} (layer : IsLayer s) (p : Ptr) (n : Node) (here : s p ≡ some n)
    (val : Word) where
  abbrev t : Store Node
  t = write s p (some (record n { val = val }))

  other : (j : ℕ) (v : Word) → j ≢ n.key → Maps s j v → Maps t j v
  other j v ne (q, x, e, k, ev, nz) = (q, x, ground (arith, layer.unique p q n x), k, ev, nz)

  back :
      (j : ℕ) (v : Word)
      → Maps t j v
      → ((j ≡ n.key) × (v ≡ val) × (v ≢ null)) ⊎ ((j ≢ n.key) × Maps s j v)
  back j v (q, x, e, k, ev, nz) = elim (ℕ_discrete p q) [
    | yes z ↦ inl (ground arith, ground arith, nz)
    | no ne ↦
        let old : s q ≡ some x = ground arith in
        inr (ground (arith, layer.unique p q n x), (q, x, old, k, ev, nz))
  ]

  pub write_val-Puts : val ≢ null → Puts s t n.key val
  write_val-Puts nz j v = (
    λ m. elim (back j v m) [ inl (a, b, _) ↦ inl (a, b) | inr r ↦ inr r ],
    elim [
      | inl (a, b) ↦ (p, record n { val = val }, ground arith, sym a, sym b, ground arith)
      | inr (ne, m) ↦ other j v ne m
    ],
  )

  pub write_val-Drops : val ≡ null → Drops s t n.key
  write_val-Drops z j v = (
    λ m. elim (back j v m) [ inl (a, b, nz) ↦ absurd (nz (b ∙ z)) | inr r ↦ r ],
    λ (ne, m). other j v ne m,
  )

-- A write to `prev` or `level`.
module _ {s : Store Node} (p : Ptr) (n n' : Node) (here : s p ≡ some n) (key : n'.key ≡ n.key)
    (val : n'.val ≡ n.val) where
  pub relabel-Maps : (j : ℕ) (v : Word) → Maps (write s p (some n')) j v ↔ Maps s j v
  relabel-Maps j v = (
    λ (q, x, e, k, ev, nz). elim (ℕ_discrete p q) [
      | yes z ↦ (p, n, here, ground arith, ground arith, nz)
      | no ne ↦ (q, x, ground arith, k, ev, nz)
    ],
    λ (q, x, e, k, ev, nz). elim (ℕ_discrete p q) [
      | yes z ↦ (p, n', ground arith, ground arith, ground arith, nz)
      | no ne ↦ (q, x, ground arith, k, ev, nz)
    ],
  )

-- A new node linked behind the node where the search for its key ends.
module _ {s : Store Node} (layer : IsLayer s) {key : ℕ} {q : Ptr} {n : Node} (at : At s key q n)
    (ne : n.key ≢ key) (new : Ptr) (val : Word) (unused : s new ≡ none) (nz : val ≢ null) where
  abbrev u : Store Node
  u = linked s new (fresh_node key val q n.next) q (record n { next = new })

  linked-back : (j : ℕ) (v : Word) → Maps u j v → ((j ≡ key) × (v ≡ val)) ⊎ ((j ≢ key) × Maps s j v)
  linked-back j v (p, x, e, k, ev, nv) = elim (ℕ_discrete q p) [
    | yes z ↦ inr (ground arith, (q, n, at.here, ground arith, ground arith, nv))
    | no ne_q ↦ elim (ℕ_discrete new p) [
      | yes z ↦ inl (ground arith, ground arith)
      | no ne_new ↦
          let old : s p ≡ some x = ground arith in
          inr (ground (arith, At-unique layer.chain at p x old), (p, x, old, k, ev, nv))
    ]
  ]

  linked-there : (j : ℕ) (v : Word) → Maps s j v → Maps u j v
  linked-there j v (p, x, e, k, ev, nv) = elim (ℕ_discrete q p) [
    | yes z ↦ (
      q,
      record n { next = new },
      ground arith,
      ground (arith, at.here),
      ground (arith, at.here),
      nv,
    )
    | no ne_q ↦ (p, x, ground arith, k, ev, nv)
  ]

  pub linked-Puts : Puts s u key val
  linked-Puts j v = (
    linked-back j v,
    elim [
      | inl (a, b) ↦
          (new, fresh_node key val q n.next, ground (arith, at.here), sym a, sym b, ground arith)
      | inr (d, m) ↦ linked-there j v m
    ],
  )
