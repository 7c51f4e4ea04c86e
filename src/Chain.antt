-- ===== src/Chain.antt =====
-- Stores of nodes that are linked by a `next` pointer in the order of their keys, with no two nodes
-- of one key: the data layer and the intermediate layer of src/hosk/skiplist.h are such chains.
pub mod Link
pub mod Unlink
use hosk.Base.{
  ℕ, suc, ◌≤◌, ◌<◌, ◌≡◌, refl, sym, ap, ◌∙◌, ◌≢◌, ◌⊎◌, inl, inr, some, arith, ℕ_discrete, ◌==◌,
  if◌then◌else◌,
}
use hosk.Enclave.{Ptr}
use hosk.Skiplist.{Store, null, write}

module _ {A : Type 0} (key : A → ℕ) (next : A → Ptr) where
  -- A node leads to the one with the next key.
  pub record IsChain (s : Store A) : Type 0 where
    pub unique : (p q : Ptr) (n m : A) → s p ≡ some n → s q ≡ some m → key n ≡ key m → p ≡ q
    pub follows :
        (p : Ptr) (n : A)
        → s p ≡ some n
        → next n ≢ null
        → (x : A) × (s (next n) ≡ some x) × (key n < key x)
    pub goes_on :
        (p q : Ptr) (n m : A) → s p ≡ some n → s q ≡ some m → key n < key m → next n ≢ null
    pub least :
        (p q : Ptr) (n m x : A)
        → s p ≡ some n
        → s q ≡ some m
        → key n < key m
        → s (next n) ≡ some x
        → key x ≤ key m

  -- Where a search for `k` ends: at the last node that is not behind it.
  pub record At (s : Store A) (k : ℕ) (q : Ptr) (n : A) : Type 0 where
    pub here : s q ≡ some n
    pub before : key n ≤ k
    pub after : (next n ≡ null) ⊎ ((x : A) × (s (next n) ≡ some x) × (k < key x))

  -- Every node of `s` is in `t`, with the same key and successor.
  abbrev pub Keeps : Store A → Store A → Type 0
  Keeps s t =
      (p : Ptr) (n : A)
      → s p ≡ some n
      → (m : A) × (t p ≡ some m) × (key m ≡ key n) × (next m ≡ next n)

module _ {A : Type 0} {key : A → ℕ} {next : A → Ptr} {s : Store A} (chain : IsChain key next s)
    {k : ℕ} {q : Ptr} {n : A} (at : At key next s k q n) where
  -- Only the node where the search ends can have the key.
  pub At-unique : (p : Ptr) (m : A) → s p ≡ some m → key m ≡ k → (p ≡ q) × (key n ≡ k)
  At-unique p m e j = elim at.after [
    | inl end ↦ ground (arith, at.here, at.before, chain.unique p q m n, chain.goes_on q p n m)
    | inr (x, there, beyond) ↦
        ground (arith, at.here, at.before, chain.unique p q m n, chain.least q p n m x)
  ]

module _ {A : Type 0} {key : A → ℕ} {next : A → Ptr} {s t : Store A} (chain : IsChain key next s)
    (there : Keeps key next s t) (back : Keeps key next t s) where
  -- Changes that leave keys and successors alone keep the order.
  pub reshape-IsChain : IsChain key next t
  reshape-IsChain = record {
    unique = λ p q n m e f k.
        let (n', e', k', _) = back p n e in
        let (m', f', l', _) = back q m f in chain.unique p q n' m' e' f' (omega arith);
    follows = λ p n e ne.
        let (n', e', k', same) = back p n e in
        let (x, ex, lt) = chain.follows p n' e' (λ z. ne (sym same ∙ z)) in
        let (x', ex', kx, _) = there (next n') x ex in (x', ap t (sym same) ∙ ex', omega arith);
    goes_on = λ p q n m e f lt z.
        let (n', e', k', same) = back p n e in
        let (m', f', l', _) = back q m f in chain.goes_on p q n' m' e' f' (omega arith) (same ∙ z);
    least = λ p q n m x e f lt ex.
        let (n', e', k', same) = back p n e in
        let (m', f', l', _) = back q m f in
        let (x', ex', kx, _) = back (next n) x ex in
        let h = chain.least p q n' m' x' e' f' (omega arith) (ap s same ∙ ex') in omega arith;
  }

-- A write to one node that leaves its key and successor alone.
module _ {A : Type 0} (key : A → ℕ) (next : A → Ptr) (s : Store A) (p : Ptr) (n n' : A)
    (here : s p ≡ some n) (same_key : key n' ≡ key n) (same_next : next n' ≡ next n) where
  relabel-there : Keeps key next s (write s p (some n'))
  relabel-there a x e = elim (ℕ_discrete p a) [
    | yes q ↦ (n', ground arith, ground arith, ground arith)
    | no ne ↦ (x, ground arith, refl, refl)
  ]

  relabel-back : Keeps key next (write s p (some n')) s
  relabel-back a x e = elim (ℕ_discrete p a) [
    | yes q ↦ (n, ground arith, ground arith, ground arith)
    | no ne ↦ (x, ground arith, refl, refl)
  ]

  pub relabel-IsChain : IsChain key next s → IsChain key next (write s p (some n'))
  relabel-IsChain chain = reshape-IsChain chain relabel-there relabel-back
