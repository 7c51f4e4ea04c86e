-- ===== src/Chain/Link.antt =====
-- A new node linked behind the node where the search for its key ends.
use hosk.Base.{ℕ, ◌≤◌, ◌<◌, ◌≡◌, refl, sym, ap, ◌∙◌, ◌≢◌, inl, inr, none, some, arith, ℕ_discrete}
use hosk.Enclave.{Ptr}
use hosk.Skiplist.{Store, null, write}
use hosk.Chain.{IsChain, At, At-unique}

-- `made` is linked at `new` behind the node at `q`, which becomes `moved`.
abbrev pub linked : {A : Type 0} → Store A → Ptr → A → Ptr → A → Store A
linked s new made q moved = write (write s new (some made)) q (some moved)

module _ {A : Type 0} {key : A → ℕ} {next : A → Ptr} {s : Store A} (chain : IsChain key next s)
    {k : ℕ} {q : Ptr} {n : A} (at : At key next s k q n) (ne : key n ≢ k) (new : Ptr)
    (made moved : A) (unused : s new ≡ none) (live : new ≢ null) (key_made : key made ≡ k)
    (next_made : next made ≡ next n) (key_moved : key moved ≡ key n)
    (next_moved : next moved ≡ new) where
  abbrev t : Store A
  t = linked s new made q moved

  -- What a node of the new store is.
  data Origin (a : Ptr) (x : A) : Type 0 where
    left : a ≡ q → x ≡ moved → Origin a x
    middle : a ≡ new → x ≡ made → Origin a x
    old : a ≢ q → a ≢ new → s a ≡ some x → Origin a x

  apart : q ≢ new
  apart e = ground (arith, at.here)

  origin : (a : Ptr) (x : A) → t a ≡ some x → Origin a x
  origin a x e = elim (ℕ_discrete q a) [
    | yes p ↦ left (sym p) (ground arith)
    | no ne_q ↦ elim (ℕ_discrete new a) [
      | yes p ↦ middle (sym p) (ground arith)
      | no ne_new ↦ old (λ p. ne_q (sym p)) (λ p. ne_new (sym p)) (ground arith)
    ]
  ]

  at_new : t new ≡ some made
  at_new = ground (arith, apart)

  absent : (a : Ptr) (x : A) → s a ≡ some x → key x ≢ k
  absent a x e same = ne (At-unique chain at a x e same).1

  linked_unique : (a b : Ptr) (x y : A) → t a ≡ some x → t b ≡ some y → key x ≡ key y → a ≡ b
  linked_unique a b x y ea eb same = ground (
    arith,
    at.here,
    absent a x,
    absent b y,
    chain.unique a b x y,
    chain.unique q b n y,
    chain.unique a q x n,
  )

  -- A node of the old store is in the new one, with its k, and the other way round.
  kept : (b : Ptr) (z : A) → s b ≡ some z → (z' : A) × (t b ≡ some z') × (key z' ≡ key z)
  kept b z e = elim (ℕ_discrete q b) [
    | yes p ↦ (moved, ground arith, ground (arith, at.here))
    | no ne_q ↦ (z, ground arith, refl)
  ]

  known : (b : Ptr) (z : A) → t b ≡ some z → b ≢ new → (z' : A) × (s b ≡ some z') × (key z' ≡ key z)
  known b z e ne_new = elim (ℕ_discrete q b) [
    | yes p ↦ (n, ap s (sym p) ∙ at.here, ground arith)
    | no ne_q ↦ (z, ground arith, refl)
  ]

  -- The other nodes with smaller keys stand before the node where the search ends, and those with
  -- greater keys behind the new one.
  below : (a : Ptr) (x : A) → s a ≡ some x → a ≢ q → key x < k → key x < key n
  below a x e ne_q lt = elim at.after [
    | inl end ↦ ground (arith, at.here, chain.unique a q x n, chain.goes_on q a n x)
    | inr (w, ew, beyond) ↦ ground (arith, at.here, chain.unique a q x n, chain.least q a n x w)
  ]

  beyond : (b : Ptr) (y : A) → s b ≡ some y → key n < key y → k < key y
  beyond b y e lt = elim at.after [
    | inl end ↦ ground (arith, at.here, chain.goes_on q b n y)
    | inr (w, ew, far) ↦ ground (arith, at.here, chain.least q b n y w)
  ]

  before : key n < k
  before = omega (arith, at.before, ne)

  linked-follows :
      (a : Ptr) (x : A)
      → Origin a x
      → next x ≢ null
      → (z : A) × (t (next x) ≡ some z) × (key x < key z)
  linked-follows a x (left p e) nz = (made, ground (arith, at_new), ground (arith, before))
  linked-follows a x (middle p e) nz = elim at.after [
    | inl end ↦ absurd (nz (ground arith))
    | inr (w, ew, far) ↦ let (z, ez, kz) = kept (next n) w ew in (z, ground arith, ground arith)
  ]
  linked-follows a x (old ne_q ne_new e) nz =
      let (w, ew, far) = chain.follows a x e nz in
      let (z, ez, kz) = kept (next x) w ew in (z, ez, omega arith)

  linked-goes_on : (a b : Ptr) (x y : A) → Origin a x → Origin b y → key x < key y → next x ≢ null
  linked-goes_on a b x y (left p e) _ lt = ground arith
  linked-goes_on a b x y (middle p e) (left p' e') lt = ground (arith, before)
  linked-goes_on a b x y (middle p e) (middle p' e') lt = ground arith
  linked-goes_on a b x y (middle p e) (old ne_q ne_new e') lt =
      ground (arith, before, at.here, chain.goes_on q b n y)
  linked-goes_on a b x y (old ne_q ne_new e) (left p' e') lt =
      ground (arith, at.here, chain.goes_on a q x n)
  linked-goes_on a b x y (old ne_q ne_new e) (middle p' e') lt =
      ground (arith, at.here, below a x e ne_q, chain.goes_on a q x n)
  linked-goes_on a b x y (old ne_q ne_new e) (old _ _ e') lt = chain.goes_on a b x y e e' lt

  old-next : (a : Ptr) (x : A) → s a ≡ some x → next x ≢ new
  old-next a x e p =
      let (w, ew, far) = chain.follows a x e (λ end. live (sym p ∙ end)) in ground arith

  linked-least :
      (a b : Ptr) (x y z : A)
      → Origin a x
      → Origin b y
      → key x < key y
      → t (next x) ≡ some z
      → key z ≤ key y
  linked-least a b x y z (left p e) (left p' e') lt ez = ground arith
  linked-least a b x y z (left p e) (middle p' e') lt ez = ground (arith, at_new)
  linked-least a b x y z (left p e) (old ne_q ne_new e') lt ez =
      ground (arith, at_new, beyond b y e')
  linked-least a b x y z (middle p e) (left p' e') lt ez = ground (arith, before)
  linked-least a b x y z (middle p e) (middle p' e') lt ez = ground arith
  linked-least a b x y z (middle p e) (old ne_q ne_new e') lt ez =
      let (w, ew, same) = known (next n) z (ground arith) (old-next q n at.here) in
      ground (arith, before, at.here, chain.least q b n y w)
  linked-least a b x y z (old ne_q ne_new e) (left p' e') lt ez =
      let (w, ew, same) = known (next x) z ez (old-next a x e) in
      ground (arith, at.here, chain.least a q x n w)
  linked-least a b x y z (old ne_q ne_new e) (middle p' e') lt ez =
      let (w, ew, same) = known (next x) z ez (old-next a x e) in
      ground (arith, at.here, before, below a x e ne_q, chain.least a q x n w)
  linked-least a b x y z (old ne_q ne_new e) (old _ _ e') lt ez =
      let (w, ew, same) = known (next x) z ez (old-next a x e) in
      ground (arith, chain.least a b x y w)

  pub linked-IsChain : IsChain key next t
  linked-IsChain = record {
    unique = linked_unique;
    follows = λ a x e. linked-follows a x (origin a x e);
    goes_on = λ a b x y ea eb. linked-goes_on a b x y (origin a x ea) (origin b y eb);
    least = λ a b x y z ea eb. linked-least a b x y z (origin a x ea) (origin b y eb);
  }
