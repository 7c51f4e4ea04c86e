-- ===== src/Chain/Unlink.antt =====
-- A node taken out of a chain: the one before it leads to the one behind it.
use hosk.Base.{ℕ, ◌≤◌, ◌<◌, ◌≡◌, refl, sym, ap, ◌∙◌, ◌≢◌, none, some, arith, ℕ_discrete}
use hosk.Enclave.{Ptr}
use hosk.Skiplist.{Store, null, write}
use hosk.Chain.{IsChain}

-- The node at `q` is gone, and the one at `p` has become `moved`.
abbrev pub unlinked : {A : Type 0} → Store A → Ptr → A → Ptr → Store A
unlinked s p moved q = write (write s p (some moved)) q none

module _ {A : Type 0} {key : A → ℕ} {next : A → Ptr} {s : Store A} (chain : IsChain key next s)
    {p q : Ptr} {n m : A} (before : s p ≡ some n) (here : s q ≡ some m) (leads : next n ≡ q)
    (live : q ≢ null) (moved : A) (key_moved : key moved ≡ key n)
    (next_moved : next moved ≡ next m) where
  abbrev t : Store A
  t = unlinked s p moved q

  -- What a node of the new store is.
  data Origin (a : Ptr) (x : A) : Type 0 where
    left : a ≡ p → x ≡ moved → Origin a x
    old : a ≢ p → a ≢ q → s a ≡ some x → Origin a x

  up : key n < key m
  up = let (x, ex, lt) = chain.follows p n before (ground arith) in ground (arith, here)

  apart : p ≢ q
  apart e = ground (arith, up, here, before)

  origin : (a : Ptr) (x : A) → t a ≡ some x → Origin a x
  origin a x e = elim (ℕ_discrete p a) [
    | yes z ↦ left (sym z) (ground (arith, apart))
    | no ne_p ↦ old (λ z. ne_p (sym z)) (λ z. ground arith) (ground arith)
  ]

  -- Every node of the old store but `q` is in the new one, with its key, and the other way round.
  pub unlinked-kept :
      (b : Ptr) (z : A) → s b ≡ some z → b ≢ q → (z' : A) × (t b ≡ some z') × (key z' ≡ key z)
  unlinked-kept b z e ne = elim (ℕ_discrete p b) [
    | yes w ↦ (moved, ground (arith, apart), ground (arith, before))
    | no ne_p ↦ (z, ground arith, refl)
  ]

  known : (b : Ptr) (z : A) → Origin b z → (z' : A) × (s b ≡ some z') × (key z' ≡ key z)
  known b z (left e f) = (n, ap s e ∙ before, ground arith)
  known b z (old ne_p ne_q e) = (z, e, refl)

  -- Only the node before it leads to the one that is taken out.
  leads_unique : (a : Ptr) (x : A) → s a ≡ some x → next x ≡ q → a ≡ p
  leads_unique a x e f =
      let (y, ey, lt) = chain.follows a x e (λ z. live (sym f ∙ z)) in
      ground (
        arith,
        here,
        before,
        up,
        chain.unique a p x n,
        chain.least a p x n y,
        chain.least p a n x m,
      )

  -- The other nodes behind `p` are behind `q`.
  beyond : (b : Ptr) (y : A) → s b ≡ some y → b ≢ q → key n < key y → key m < key y
  beyond b y e ne lt = ground (arith, here, before, chain.least p b n y m, chain.unique b q y m)

  new_next : (a : Ptr) (x : A) → t a ≡ some x → a ≢ q
  new_next a x e z = ground arith

  unlinked-follows :
      (a : Ptr) (x : A)
      → Origin a x
      → next x ≢ null
      → (z : A) × (t (next x) ≡ some z) × (key x < key z)
  unlinked-follows a x (left e f) nz =
      let (w, ew, lt) = chain.follows q m here (ground arith) in
      let (z, ez, kz) = unlinked-kept (next m) w ew (λ y. ground (arith, here)) in
      (z, ground arith, ground (arith, up))
  unlinked-follows a x (old ne_p ne_q e) nz =
      let (w, ew, lt) = chain.follows a x e nz in
      let (z, ez, kz) = unlinked-kept (next x) w ew (λ y. ne_p (leads_unique a x e y)) in
      (z, ez, omega arith)

  not_q : (b : Ptr) (y : A) → Origin b y → b ≢ q
  not_q b y (left e f) z = apart (sym e ∙ z)
  not_q b y (old ne_p ne_q e) z = ne_q z

  unlinked-goes_on : (a b : Ptr) (x y : A) → Origin a x → Origin b y → key x < key y → next x ≢ null
  unlinked-goes_on a b x y (left e f) o lt =
      let (y', ey, ky) = known b y o in
      let far = beyond b y' ey (not_q b y o) (ground arith) in
      ground (arith, chain.goes_on q b m y' here ey far)
  unlinked-goes_on a b x y (old ne_p ne_q e) o lt =
      let (y', ey, ky) = known b y o in chain.goes_on a b x y' e ey (omega arith)

  unlinked-least :
      (a b : Ptr) (x y z : A)
      → Origin a x
      → Origin b y
      → Origin (next x) z
      → key x < key y
      → key z ≤ key y
  unlinked-least a b x y z (left e f) o oz lt =
      let (y', ey, ky) = known b y o in
      let (z', ez, kz) = known (next x) z oz in
      let far = beyond b y' ey (not_q b y o) (ground arith) in
      let le = chain.least q b m y' z' here ey far (ground arith) in omega arith
  unlinked-least a b x y z (old ne_p ne_q e) o oz lt =
      let (y', ey, ky) = known b y o in
      let (z', ez, kz) = known (next x) z oz in
      let le = chain.least a b x y' z' e ey (omega arith) ez in omega arith

  pub unlinked-IsChain : IsChain key next t
  unlinked-IsChain = record {
    unique = λ a b x y ea eb same.
        let (x', ex, kx) = known a x (origin a x ea) in
        let (y', ey, ky) = known b y (origin b y eb) in chain.unique a b x' y' ex ey (omega arith);
    follows = λ a x e. unlinked-follows a x (origin a x e);
    goes_on = λ a b x y ea eb. unlinked-goes_on a b x y (origin a x ea) (origin b y eb);
    least = λ a b x y z ea eb lt ez.
        unlinked-least a b x y z (origin a x ea) (origin b y eb) (origin (next x) z ez) lt;
  }
