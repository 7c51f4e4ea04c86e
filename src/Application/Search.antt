-- ===== src/Application/Search.antt =====
-- Where sl_traverse_data arrives: at the last node that is not behind the key, on enough fuel.
use hosk.Base.{
  ℕ, ℤ, zero, suc, ◌+◌, ◌-◌, ◌≤◌, ◌<◌, ◌≡◌, ◌≢◌, inl, inr, some, arith, ℕ_discrete, dec_lt, ==_true,
  ==_false, lt→ltb, ltb-false, if◌then◌else◌,
}
use hosk.Enclave.{Ptr}
use hosk.Skiplist.{Node, Heap, Word, Run, null, ok, pure, continue, load_node}
use hosk.Application.{OpType, is_retry, finish, skip_removed, traverse_data}
use hosk.Application.Layer.{IsLayer, At}

pub load_node-ok :
    (h : Heap) (p : Ptr) (n : Node) → h.nodes p ≡ some n → p ≢ null → load_node p h ≡ ok n h
unfolding load_node
load_node-ok h p n e ne = ground arith

module _ (malloc : Heap → Ptr) (h : Heap) (layer : IsLayer h.nodes) where
  pub node-ne-null : (p : Ptr) (n : Node) → h.nodes p ≡ some n → p ≢ null
  node-ne-null p n e z = omega (arith, layer.high p n e)

  pub load_node_of : (p : Ptr) (n : Node) → h.nodes p ≡ some n → load_node p h ≡ ok n h
  load_node_of p n e = load_node-ok h p n e (node-ne-null p n e)

  unequal : (p : Ptr) (n : Node) → h.nodes p ≡ some n → n.val ≢ p
  unequal p n e z = omega (arith, layer.high p n e)

  -- No node is its own value, so none counts as removed.
  skip_removed_lem :
      (k : ℕ) (p : Ptr) (n : Node)
      → h.nodes p ≡ some n
      → 0 < k
      → skip_removed malloc k p h ≡ ok (p, n.val) h
  unfolding skip_removed
  skip_removed_lem zero p n e pos = absurd (omega arith)
  skip_removed_lem (suc k) p n e pos = rw (load_node_of p n e) (ground (arith, layer.high p n e))

  -- What is left to do at the node where the search ends, with `k` rounds left.
  abbrev pub arrive : OpType → ℕ → Word → Ptr → ℕ → Ptr → Node → Run (ℤ × Ptr)
  arrive op key val pnode k q n =
      continue (finish malloc k op key val q n.val n.next pnode h) λ (result, pn).
        if is_retry result then traverse_data malloc k op key val q pn else pure (result, pn)

  abbrev pub Arrives : OpType → ℕ → Word → Ptr → Run (ℤ × Ptr) → Type 0
  Arrives op key val pnode r =
      (q : Ptr) × (n : Node) × (k : ℕ) × At h.nodes key q n
      × (0 < k)
      × (r ≡ arrive op key val pnode k q n)

  module _ (k : ℕ) (op : OpType) (key : ℕ) (val : Word) (p : Ptr) (n : Node) (pnode : Ptr)
      (e : h.nodes p ≡ some n) (pos : 0 < k) where
    settle_at_end :
        n.next ≡ null
        → traverse_data malloc (suc k) op key val p pnode h ≡ arrive op key val pnode k p n
    unfolding traverse_data
    settle_at_end end =
        rw (skip_removed_lem k p n e pos, load_node_of p n e, ==_true n.next null end)

    settle_before :
        (x : Node)
        → h.nodes n.next ≡ some x
        → n.next ≢ null
        → key < x.key
        → traverse_data malloc (suc k) op key val p pnode h ≡ arrive op key val pnode k p n
    unfolding traverse_data
    settle_before x ex ne lt = rw (
      skip_removed_lem k p n e pos,
      load_node_of p n e,
      ==_false n.next null ne,
      load_node_of n.next x ex,
      ==_false x.val n.next (unequal n.next x ex),
      lt→ltb key x.key lt,
    )

    go_on :
        (x : Node)
        → h.nodes n.next ≡ some x
        → n.next ≢ null
        → x.key ≤ key
        → traverse_data malloc (suc k) op key val p pnode h
          ≡ traverse_data malloc k op key val n.next pnode h
    unfolding traverse_data
    go_on x ex ne le = rw (
      skip_removed_lem k p n e pos,
      load_node_of p n e,
      ==_false n.next null ne,
      load_node_of n.next x ex,
      ==_false x.val n.next (unequal n.next x ex),
      ltb-false key x.key le,
    )

  pub traverse_data-Arrives :
      (fuel : ℕ) (op : OpType) (key : ℕ) (val : Word) (p : Ptr) (n : Node) (pnode : Ptr)
      → h.nodes p ≡ some n
      → n.key ≤ key
      → key - n.key + 1 < fuel
      → Arrives op key val pnode (traverse_data malloc fuel op key val p pnode h)
  traverse_data-Arrives zero op key val p n pnode e le enough = absurd (omega arith)
  traverse_data-Arrives (suc k) op key val p n pnode e le enough = elim (ℕ_discrete n.next null) [
    | yes end ↦ (
      p,
      n,
      k,
      record { here = e; before = le; after = inl end },
      omega arith,
      settle_at_end k op key val p n pnode e (omega arith) end,
    )
    | no more ↦
        let (x, ex, far) = layer.follows p n e more in
        elim (dec_lt key x.key) [
          | yes lt ↦ (
            p,
            n,
            k,
            record { here = e; before = le; after = inr (x, ex, lt) },
            omega arith,
            settle_before k op key val p n pnode e (omega arith) x ex more lt,
          )
          | no ge ↦
              rw (go_on k op key val p n pnode e (omega arith) x ex more (omega arith))
                (traverse_data-Arrives k op key val n.next x pnode ex (omega arith) (omega arith))
        ]
  ]
