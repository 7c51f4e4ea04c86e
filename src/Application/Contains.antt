-- ===== src/Application/Contains.antt =====
-- The `contains` operation on the data layer.
use hosk.Base.{
  ℕ, pos, ◌+◌, ◌-◌, ◌≤◌, ◌<◌, ◌≡◌, refl, ◌∙◌, ◌≢◌, ◌⊎◌, inl, inr, some, ◌&&◌, not, arith,
  ℕ_discrete, ◌==◌, ==_false, if◌then◌else◌,
}
use hosk.Enclave.{Ptr}
use hosk.Skiplist.{Node, Store, Heap, Word, null, ok}
use hosk.Application.{contains, finish, finish_contains, traverse_data}
use hosk.Chain.{At-unique}
use hosk.Application.Layer.{IsLayer, Maps, At}
use hosk.Application.Search.{node-ne-null, load_node_of, arrive, traverse_data-Arrives}

-- Whether the map has a value at the key.
abbrev pub Has : Store Node → ℕ → Type 0
Has s key = (v : Word) × Maps s key v

module _ (malloc : Heap → Ptr) (h : Heap) (layer : IsLayer h.nodes) {key : ℕ} {q : Ptr} {n : Node}
    (at : At h.nodes key q n) where
  pub not-Has : n.key ≢ key → ¬ Has h.nodes key
  not-Has ne (v, (p, m, e, k, ev, nz)) = ne (At-unique layer.chain at p m e k).1

  pub not-Has_of_null : n.val ≡ null → ¬ Has h.nodes key
  not-Has_of_null z (v, (p, m, e, k, ev, nz)) =
      let (same, _) = At-unique layer.chain at p m e k in ground (arith, at.here)

  arrive-contains :
      (k : ℕ) (val : Word) (pnode : Ptr)
      → arrive malloc h layer contains key val pnode k q n
        ≡ ok (pos (if (key == n.key) && not (n.val == null) then 1 else 0), pnode) h
  unfolding finish finish_contains
  arrive-contains k val pnode =
      rw
        (
          ==_false q null (node-ne-null malloc h layer q n at.here),
          load_node_of malloc h layer q n at.here,
        )
        (ground arith)

  arrived :
      (k : ℕ) (val : Word) (pnode : Ptr)
      → let r = arrive malloc h layer contains key val pnode k q n in
        ((r ≡ ok (pos 1, pnode) h) × Has h.nodes key)
        ⊎ ((r ≡ ok (pos 0, pnode) h) × ¬ Has h.nodes key)
  arrived k val pnode = elim (ℕ_discrete n.key key) [
    | yes e ↦ elim (ℕ_discrete n.val null) [
      | yes z ↦ inr (arrive-contains k val pnode ∙ ground arith, not-Has_of_null z)
      | no nz ↦
          inl (arrive-contains k val pnode ∙ ground arith, (n.val, (q, n, at.here, e, refl, nz)))
    ]
    | no ne ↦ inr (arrive-contains k val pnode ∙ ground arith, not-Has ne)
  ]

-- From any node of an ordered data layer that is not behind the key, and with more rounds than keys
-- between them, sl_traverse_data for `contains` ends; it returns 1 if the map has a value at the key
-- and 0 if not, and leaves the heap and `*pnode` as they are.
pub traverse_data-contains :
    (malloc : Heap → Ptr) (h : Heap) (fuel key : ℕ) (val : Word) (p : Ptr) (n : Node) (pnode : Ptr)
    → IsLayer h.nodes
    → h.nodes p ≡ some n
    → n.key ≤ key
    → key - n.key + 1 < fuel
    → let r = traverse_data malloc fuel contains key val p pnode h in
      ((r ≡ ok (pos 1, pnode) h) × Has h.nodes key)
      ⊎ ((r ≡ ok (pos 0, pnode) h) × ¬ Has h.nodes key)
traverse_data-contains malloc h fuel key val p n pnode layer e le enough =
    let (q, m, k, at, _, same) =
      traverse_data-Arrives malloc h layer fuel contains key val p n pnode e le enough in
    rw same (arrived malloc h layer at k val pnode)
