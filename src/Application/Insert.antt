-- ===== src/Application/Insert.antt =====
-- The `insert` operation on the data layer: it brings a logically deleted node back, or links a new
-- one where the key is missing.
use mathlib.Core.Path.{subst}
use hosk.Base.{
  ℕ, ℤ, pos, ◌+◌, ◌-◌, ◌^◌, ◌≤◌, ◌<◌, ◌≡◌, refl, ◌∙◌, ◌≢◌, ◌⊎◌, inl, inr, none, some, arith,
  ℕ_discrete, ==_true, ==_false,
}
use hosk.Enclave.{Ptr}
use hosk.Skiplist.{
  Node, Heap, Word, null, write, Run, ok, cas_next, store_node, load_node, node_new,
}
use hosk.Application.{insert, finish, finish_insert, insert_val, insert_node, traverse_data}
use hosk.Application.Layer.{
  IsLayer, At, fresh_node, relabel-IsLayer, linked-IsLayer, KeepsKeys, write-KeepsKeys,
  linked-KeepsKeys,
}
use hosk.Chain.Link.{linked}
use hosk.Application.Values.{Puts, write_val-Puts, linked-Puts, relabel-Maps}
use hosk.Application.Search.{load_node_of, arrive, traverse_data-Arrives}
use hosk.Application.Contains.{Has, not-Has, not-Has_of_null}
use hosk.Application.Delete.{with_val, cas_val-ok}

-- The contract of malloc: it returns the address of no other node, above the 32-bit words.
abbrev pub Supplies : (Heap → Ptr) → Heap → Type 0
Supplies malloc h = (2 ^ 32 ≤ malloc h) × (h.nodes (malloc h) ≡ none)

-- What a successful insert does to the heap, `p` being what it stores through `pnode`.
pub record Inserted (h : Heap) (key : ℕ) (val : Word) (h' : Heap) (p : Ptr) : Type 0 where
  pub was_not : ¬ Has h.nodes key
  pub ordered : IsLayer h'.nodes
  pub puts : Puts h.nodes h'.nodes key val
  pub keeps : KeepsKeys h.nodes h'.nodes
  pub rest : h' ≡ record h { nodes = h'.nodes }
  pub there : (n : Node) × (h'.nodes p ≡ some n) × (n.key ≡ key) × (n.val ≡ val)

module _ (malloc : Heap → Ptr) (h : Heap) (layer : IsLayer h.nodes) {key : ℕ} {q : Ptr} {n : Node}
    (at : At h.nodes key q n) (k : ℕ) (val : Word) (pnode : Ptr) where
  abbrev result : Run (ℤ × Ptr)
  result = arrive malloc h layer insert key val pnode k q n

  arrive-present : n.key ≡ key → n.val ≢ null → result ≡ ok (pos 0, pnode) h
  unfolding finish finish_insert insert_val
  arrive-present e nz =
      rw (load_node_of malloc h layer q n at.here, ==_true n.key key e, ==_false n.val null nz)

  arrive-deleted : n.key ≡ key → n.val ≡ null → result ≡ ok (pos 1, q) (with_val h q n val)
  unfolding finish finish_insert insert_val
  arrive-deleted e z = rw (
    load_node_of malloc h layer q n at.here,
    ==_true n.key key e,
    ==_true n.val null z,
    cas_val-ok malloc h layer q n val at.here,
  )

  module _ (supply : Supplies malloc h) where
    abbrev new : Ptr
    new = malloc h

    -- The heap when the new node is linked, and when its successor points back to it.
    abbrev joined : Heap
    joined = record h {
      nodes = linked h.nodes new (fresh_node key val q n.next) q (record n { next = new });
    }

    abbrev backed : Node → Heap
    backed x = record h { nodes = write joined.nodes n.next (some (record x { prev = new })) }

    new-ne : (new ≢ null) × (q ≢ new) × (q ≢ null)
    new-ne = ground (arith, at.here, layer.high q n)

    link_at_end :
        n.next ≡ null → insert_node malloc key val q n.next pnode h ≡ ok (pos 1, new) joined
    unfolding insert_node node_new store_node cas_next load_node
    link_at_end end = ground (arith, at.here, new-ne)

    link_between :
        (x : Node)
        → h.nodes n.next ≡ some x
        → n.next ≢ null
        → n.next ≢ q
        → insert_node malloc key val q n.next pnode h ≡ ok (pos 1, new) (backed x)
    unfolding insert_node node_new store_node cas_next load_node
    link_between x ex ne ne_q = ground (arith, at.here, new-ne)

    arrive-missing :
        {h' : Heap}
        → n.key ≢ key
        → insert_node malloc key val q n.next pnode h ≡ ok (pos 1, new) h'
        → result ≡ ok (pos 1, new) h'
    unfolding finish finish_insert
    arrive-missing ne done =
        rw (load_node_of malloc h layer q n at.here, ==_false n.key key ne, done)

    module _ (ne : n.key ≢ key) (small : val < 2 ^ 32) (nz : val ≢ null) where
      joined-IsLayer : IsLayer joined.nodes
      joined-IsLayer = linked-IsLayer layer at ne new val supply.1 supply.0 small

      joined-Puts : Puts h.nodes joined.nodes key val
      joined-Puts = linked-Puts layer at ne new val supply.1 nz

      joined-KeepsKeys : KeepsKeys h.nodes joined.nodes
      joined-KeepsKeys =
          linked-KeepsKeys h.nodes new (fresh_node key val q n.next) q n (record n { next = new })
            supply.1 at.here refl

      joined-Inserted : Inserted h key val joined new
      joined-Inserted = record {
        was_not = not-Has malloc h layer at ne;
        ordered = joined-IsLayer;
        puts = joined-Puts;
        keeps = joined-KeepsKeys;
        rest = refl;
        there = (fresh_node key val q n.next, ground (arith, new-ne), refl, refl);
      }

      module _ (x : Node) (ex : h.nodes n.next ≡ some x) (ne_q : n.next ≢ q) where
        still : (joined.nodes n.next ≡ some x) × (n.next ≢ new)
        still = ground (arith, supply.1)

        backed-Inserted : Inserted h key val (backed x) new
        backed-Inserted = record {
          was_not = not-Has malloc h layer at ne;
          ordered =
              relabel-IsLayer joined-IsLayer n.next x (record x { prev = new }) still.0 refl refl
                (layer.high n.next x ex).1;
          puts = λ j v.
              let (to, from) = joined-Puts j v in
              let (over, back) =
                relabel-Maps n.next x (record x { prev = new }) still.0 refl refl j v in
              (λ m. to (over m), λ m. back (from m));
          keeps = λ a y e.
              let (z, ez, kz) = joined-KeepsKeys a y e in
              let (w, ew, kw) =
                write-KeepsKeys joined.nodes n.next x (record x { prev = new }) still.0 refl a z
                  ez in
              (w, ew, kw ∙ kz);
          rest = refl;
          there = (fresh_node key val q n.next, ground (arith, new-ne, still.1), refl, refl);
        }

      missing-Inserted :
          (h' : Heap) × (p : Ptr) × (result ≡ ok (pos 1, p) h') × Inserted h key val h' p
      missing-Inserted = elim (ℕ_discrete n.next null) [
        | yes end ↦ (joined, new, arrive-missing ne (link_at_end end), joined-Inserted)
        | no more ↦
            let (x, ex, far) = layer.follows q n at.here more in
            let ne_q : n.next ≢ q = ground (arith, at.here) in
            (
              backed x,
              new,
              arrive-missing ne (link_between x ex more ne_q),
              backed-Inserted x ex ne_q,
            )
      ]

  deleted-Inserted :
      n.key ≡ key
      → n.val ≡ null
      → val < 2 ^ 32
      → val ≢ null
      → Inserted h key val (with_val h q n val) q
  deleted-Inserted e z small nz = record {
    was_not = not-Has_of_null malloc h layer at z;
    ordered = relabel-IsLayer layer q n (record n { val = val }) at.here refl refl small;
    puts =
        subst (λ j. Puts h.nodes (with_val h q n val).nodes j val) e
          (write_val-Puts layer q n at.here val nz);
    keeps = write-KeepsKeys h.nodes q n (record n { val = val }) at.here refl;
    rest = refl;
    there = (record n { val = val }, ground arith, e, refl);
  }

-- From any node of an ordered data layer that is not behind the key, with more rounds than keys
-- between them, for a value that is a 32-bit word and not `NULL`, and with a malloc that supplies a
-- new node, sl_traverse_data for `insert` ends. If the map has a value at the key it returns 0 and
-- changes nothing; if not, it returns 1, the map gains the value at the key and keeps all others,
-- the layer stays ordered, the index is left alone, and `*pnode` is a node with the key and value.
pub traverse_data-insert :
    (malloc : Heap → Ptr) (h : Heap) (fuel key : ℕ) (val : Word) (p : Ptr) (n : Node) (pnode : Ptr)
    → IsLayer h.nodes
    → h.nodes p ≡ some n
    → n.key ≤ key
    → key - n.key + 1 < fuel
    → val < 2 ^ 32
    → val ≢ null
    → Supplies malloc h
    → let r = traverse_data malloc fuel insert key val p pnode h in
      ((h' : Heap) × (q : Ptr) × (r ≡ ok (pos 1, q) h') × Inserted h key val h' q)
      ⊎ ((r ≡ ok (pos 0, pnode) h) × Has h.nodes key)
traverse_data-insert malloc h fuel key val p n pnode layer e le enough small nz supply =
    let (q, m, k, at, left, same) =
      traverse_data-Arrives malloc h layer fuel insert key val p n pnode e le enough in
    elim (ℕ_discrete m.key key) [
      | no ne ↦
          let (h', new, got, is) =
            missing-Inserted malloc h layer at k val pnode supply ne small nz in
          inl (h', new, same ∙ got, is)
      | yes eq ↦ elim (ℕ_discrete m.val null) [
        | yes z ↦ inl (
          with_val h q m val,
          q,
          same ∙ arrive-deleted malloc h layer at k val pnode eq z,
          deleted-Inserted malloc h layer at k val pnode eq z small nz,
        )
        | no live ↦ inr (
          same ∙ arrive-present malloc h layer at k val pnode eq live,
          (m.val, (q, m, at.here, eq, refl, live)),
        )
      ]
    ]
