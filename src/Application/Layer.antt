-- ===== src/Application/Layer.antt =====
-- The data layer as a set of nodes ordered by key, and what it stands for.
use hosk.Base.{ℕ, ◌^◌, ◌≤◌, ◌<◌, ◌≡◌, ◌≢◌, refl, none, some, arith, ℕ_discrete}
use hosk.Enclave.{Ptr}
use hosk.Skiplist.{Node, Store, Word, null, write}
use hosk.Chain
use hosk.Chain.{IsChain, relabel-IsChain}
use hosk.Chain.Link.{linked, linked-IsChain}

abbrev pub node_key : Node → ℕ
node_key n = n.key

abbrev pub node_next : Node → Ptr
node_next n = n.next

-- Values are 32-bit words, and nodes live above them, so that no value is mistaken for the address
-- of a node.
abbrev pub IsHigh : Store Node → Type 0
IsHigh s = (p : Ptr) (n : Node) → s p ≡ some n → (2 ^ 32 ≤ p) × (n.val < 2 ^ 32)

pub record IsLayer (s : Store Node) : Type 0 where
  pub high : IsHigh s
  pub chain : IsChain node_key node_next s
  pub open chain use *

-- The map that the layer stands for: a node whose value is `NULL` is logically deleted.
abbrev pub Maps : Store Node → ℕ → Word → Type 0
Maps s j v = (q : Ptr) × (n : Node) × (s q ≡ some n) × (n.key ≡ j) × (n.val ≡ v) × (v ≢ null)

-- Where a search in the data layer ends.
abbrev pub At : Store Node → ℕ → Ptr → Node → Type 0
At = Chain.At node_key node_next

abbrev pub fresh_node : ℕ → Word → Ptr → Ptr → Node
fresh_node key val prev next = record { prev = prev; next = next; val = val; key = key; level = 0 }

-- A write to `prev`, `val` or `level` of one node.
pub relabel-IsLayer :
    {s : Store Node}
    → IsLayer s
    → (p : Ptr) (n n' : Node) → s p ≡ some n
    → n'.key ≡ n.key
    → n'.next ≡ n.next
    → n'.val < 2 ^ 32
    → IsLayer (write s p (some n'))
relabel-IsLayer {s} layer p n n' here key next val = record {
  high = λ a x e. ground (arith, layer.high a x, layer.high p n);
  chain = relabel-IsChain node_key node_next s p n n' here key next layer.chain;
}

-- A new node linked behind the node where the search for its key ends.
pub linked-IsLayer :
    {s : Store Node}
    → IsLayer s
    → {key : ℕ} {q : Ptr} {n : Node} → At s key q n
    → n.key ≢ key
    → (new : Ptr) (val : Word) → s new ≡ none
    → 2 ^ 32 ≤ new
    → val < 2 ^ 32
    → IsLayer (linked s new (fresh_node key val q n.next) q (record n { next = new }))
linked-IsLayer {s} layer {key} {q} {n} at ne new val unused high small = record {
  high = λ a x e. ground (arith, layer.high a x, layer.high q n, at.here);
  chain =
      linked-IsChain layer.chain at ne new (fresh_node key val q n.next) (record n { next = new })
        unused (λ z. omega arith) refl refl refl refl;
}

-- Every node is still there, at the same key.
abbrev pub KeepsKeys : Store Node → Store Node → Type 0
KeepsKeys s t = (p : Ptr) (n : Node) → s p ≡ some n → (m : Node) × (t p ≡ some m) × (m.key ≡ n.key)

pub write-KeepsKeys :
    (s : Store Node) (p : Ptr) (n n' : Node)
    → s p ≡ some n
    → n'.key ≡ n.key
    → KeepsKeys s (write s p (some n'))
write-KeepsKeys s p n n' here same a x e = elim (ℕ_discrete p a) [
  | yes z ↦ (n', ground arith, ground arith)
  | no ne ↦ (x, ground arith, refl)
]

-- A new node linked behind the one at `q`.
pub linked-KeepsKeys :
    (s : Store Node) (new : Ptr) (made : Node) (q : Ptr) (n n' : Node)
    → s new ≡ none
    → s q ≡ some n
    → n'.key ≡ n.key
    → KeepsKeys s (linked s new made q n')
linked-KeepsKeys s new made q n n' unused here same a x e = elim (ℕ_discrete q a) [
  | yes z ↦ (n', ground arith, ground arith)
  | no ne ↦ (x, ground arith, refl)
]
