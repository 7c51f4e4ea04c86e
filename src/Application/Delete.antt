-- ===== src/Application/Delete.antt =====
-- The `delete` operation on the data layer: it deletes logically, by a value of `NULL`.
use mathlib.Core.Path.{subst}
use hosk.Base.{
  ℕ, ℤ, pos, zero, suc, ◌+◌, ◌-◌, ◌≤◌, ◌<◌, ◌≡◌, refl, ◌∙◌, ◌≢◌, ◌⊎◌, inl, inr, some, true, arith,
  ℕ_discrete, ==_true, ==_false,
}
use hosk.Enclave.{Ptr}
use hosk.Skiplist.{Node, Heap, Word, null, write, Run, ok, cas_val, store_node}
use hosk.Application.{delete, finish, finish_delete, delete_loop, traverse_data}
use hosk.Application.Layer.{IsLayer, At, relabel-IsLayer, KeepsKeys, write-KeepsKeys}
use hosk.Application.Values.{Drops, write_val-Drops}
use hosk.Application.Search.{node-ne-null, load_node_of, arrive, traverse_data-Arrives}
use hosk.Application.Contains.{Has, not-Has, not-Has_of_null}

-- The heap after the value of the node at `p` has been set.
abbrev pub with_val : Heap → Ptr → Node → Word → Heap
with_val h p n val = record h { nodes = write h.nodes p (some (record n { val = val })) }

module _ (malloc : Heap → Ptr) (h : Heap) (layer : IsLayer h.nodes) where
  pub cas_val-ok :
      (p : Ptr) (n : Node) (new : Word)
      → h.nodes p ≡ some n
      → cas_val p n.val new h ≡ ok true (with_val h p n new)
  unfolding cas_val store_node
  cas_val-ok p n new e = rw (load_node_of malloc h layer p n e, ==_true n.val n.val refl)

  delete_loop-ok :
      (k : ℕ) (p : Ptr) (n : Node)
      → h.nodes p ≡ some n
      → n.val ≢ null
      → 0 < k
      → delete_loop k p h ≡ ok (pos 1) (with_val h p n null)
  unfolding delete_loop
  delete_loop-ok zero p n e nz some_fuel = absurd (omega arith)
  delete_loop-ok (suc k) p n e nz some_fuel = rw (
    load_node_of malloc h layer p n e,
    ==_false n.val null nz,
    ==_false p n.val (λ z. omega (arith, layer.high p n e)),
    cas_val-ok p n null e,
  )

module _ (malloc : Heap → Ptr) (h : Heap) (layer : IsLayer h.nodes) {key : ℕ} {q : Ptr} {n : Node}
    (at : At h.nodes key q n) (k : ℕ) (val : Word) (pnode : Ptr) where
  abbrev result : Run (ℤ × Ptr)
  result = arrive malloc h layer delete key val pnode k q n

  arrive-absent : n.key ≢ key → result ≡ ok (pos 0, pnode) h
  unfolding finish finish_delete
  arrive-absent ne = rw (
    ==_false q null (node-ne-null malloc h layer q n at.here),
    load_node_of malloc h layer q n at.here,
    ==_false n.key key ne,
  )

  arrive-deleted : n.val ≡ null → result ≡ ok (pos 0, pnode) h
  unfolding finish finish_delete
  arrive-deleted z =
      rw
        (
          ==_false q null (node-ne-null malloc h layer q n at.here),
          load_node_of malloc h layer q n at.here,
          ==_true n.val null z,
        )
        (ground arith)

  arrive-live :
      n.key ≡ key → n.val ≢ null → 0 < k → result ≡ ok (pos 1, pnode) (with_val h q n null)
  unfolding finish finish_delete
  arrive-live e nz some_fuel = rw (
    ==_false q null (node-ne-null malloc h layer q n at.here),
    load_node_of malloc h layer q n at.here,
    ==_true n.key key e,
    ==_false n.val null nz,
    delete_loop-ok malloc h layer k q n at.here nz some_fuel,
  )

-- What a successful delete does to the heap.
pub record Deleted (h : Heap) (key : ℕ) (h' : Heap) : Type 0 where
  pub was : Has h.nodes key
  pub ordered : IsLayer h'.nodes
  pub drops : Drops h.nodes h'.nodes key
  pub keeps : KeepsKeys h.nodes h'.nodes
  pub rest : h' ≡ record h { nodes = h'.nodes }

-- From any node of an ordered data layer that is not behind the key, and with more rounds than keys
-- between them, sl_traverse_data for `delete` ends. If the map has a value at the key it returns 1,
-- the map loses that key and no other, and the layer stays ordered; if not, it returns 0 and leaves
-- the heap as it is. The index and `*pnode` are left alone.
pub traverse_data-delete :
    (malloc : Heap → Ptr) (h : Heap) (fuel key : ℕ) (val : Word) (p : Ptr) (n : Node) (pnode : Ptr)
    → IsLayer h.nodes
    → h.nodes p ≡ some n
    → n.key ≤ key
    → key - n.key + 1 < fuel
    → let r = traverse_data malloc fuel delete key val p pnode h in
      ((h' : Heap) × (r ≡ ok (pos 1, pnode) h') × Deleted h key h')
      ⊎ ((r ≡ ok (pos 0, pnode) h) × ¬ Has h.nodes key)
traverse_data-delete malloc h fuel key val p n pnode layer e le enough =
    let (q, m, k, at, left, same) =
      traverse_data-Arrives malloc h layer fuel delete key val p n pnode e le enough in
    elim (ℕ_discrete m.key key) [
      | no ne ↦
          inr (same ∙ arrive-absent malloc h layer at k val pnode ne, not-Has malloc h layer at ne)
      | yes eq ↦ elim (ℕ_discrete m.val null) [
        | yes z ↦ inr (
          same ∙ arrive-deleted malloc h layer at k val pnode z,
          not-Has_of_null malloc h layer at z,
        )
        | no nz ↦ inl (
          with_val h q m null,
          same ∙ arrive-live malloc h layer at k val pnode eq nz left,
          record {
            was = (m.val, (q, m, at.here, eq, refl, nz));
            ordered =
                relabel-IsLayer layer q m (record m { val = null }) at.here refl refl (omega arith);
            drops =
                subst (λ j. Drops h.nodes (with_val h q m null).nodes j) eq
                  (write_val-Drops layer q m at.here null refl);
            keeps = write-KeepsKeys h.nodes q m (record m { val = null }) at.here refl;
            rest = refl;
          },
        )
      ]
    ]
