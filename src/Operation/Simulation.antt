-- ===== src/Operation/Simulation.antt =====
-- The operations on the three layers simulate a set of keys.
use mathlib.Core.Path.{subst}
use hosk.Base.{
  ℕ, ℤ, ◌+◌, ◌^◌, ◌≤◌, ◌<◌, ◌≡◌, refl, sym, ◌≢◌, inl, inr, ◌↔◌, Bool, true, false, some, arith,
  Bool-cases, ℕ_discrete, ==_true, ==_false,
}
use hosk.Enclave.{Ptr}
use hosk.Skiplist.{Node, Heap, Run, null, ok}
use hosk.Application.{OpType, contains, delete, insert}
use hosk.Application.Layer.{IsLayer, KeepsKeys}
use hosk.Application.Contains.{Has, traverse_data-contains}
use hosk.Application.Delete.{Deleted, traverse_data-delete}
use hosk.Application.Insert.{Inserted, Supplies, traverse_data-insert}
use hosk.Index.Change.{nodes-IsSkiplist}
use hosk.Index.{IsSkiplist}
use hosk.Index.Search.{index_search-finds, mnode_search-At, load_mnode-ok}
use hosk.Operation.{traverse_index, do_operation}
use hosk.Operation.Set.{KeySet, Represents, put, set_op, result_of}

module _ {height : Ptr → ℕ} {sentinel : Ptr} (h : Heap) (whole : IsSkiplist height sentinel h)
    (fuel key : ℕ) (enough : height sentinel + key + 1 < fuel) where
  -- The entry is a node of the data layer that is not behind the key.
  pub traverse_index-enters :
      (p : Ptr) × (n : Node) × (traverse_index fuel key sentinel h ≡ ok p h)
      × (h.nodes p ≡ some n)
      × (n.key ≤ key)
  unfolding traverse_index
  traverse_index-enters =
      let (i, ei, k) = whole.start in
      let (a, m, ra, em, le) =
        index_search-finds h whole.index fuel key sentinel i ei whole.used (omega arith)
          (omega arith) in
      let (q, x, rq, at) = mnode_search-At h whole.index fuel key a m em le (omega arith) in
      let (n, en, kn) = whole.index.node q x at.here in
      (
        x.node,
        n,
        rw (ra, rq, load_mnode-ok h whole.index q x at.here) refl,
        en,
        omega (arith, at.before),
      )

module _ {height : Ptr → ℕ} {sentinel : Ptr} {h : Heap} (whole : IsSkiplist height sentinel h)
    (h' : Heap) (layer : IsLayer h'.nodes) (keeps : KeepsKeys h.nodes h'.nodes) where
  -- The data layer changes and keeps its nodes, and the upper layers stay as they are.
  abbrev changed : Heap
  changed = record h { nodes = h'.nodes }

  changed-IsSkiplist : IsSkiplist height sentinel changed
  changed-IsSkiplist = nodes-IsSkiplist whole h'.nodes layer keeps

  keeps-IsSkiplist : h' ≡ changed → IsSkiplist height sentinel h'
  keeps-IsSkiplist rest = subst (IsSkiplist height sentinel) (sym rest) changed-IsSkiplist

-- What it stores through `pnode`: the node of a successful insert, and nothing otherwise. The Boolean
-- says whether the set had the key.
abbrev pub Told : OpType → Bool → ℕ → Ptr → Ptr → Heap → Type 0
Told insert false key pnode p h = (p ≢ null) × ((n : Node) × (h.nodes p ≡ some n) × (n.key ≡ key))
Told insert true key pnode p h = p ≡ pnode
Told delete b key pnode p h = p ≡ pnode
Told contains b key pnode p h = p ≡ pnode

-- Only the data layer changes, and its nodes keep their keys.
abbrev pub Touches : Heap → Heap → Type 0
Touches h h' = KeepsKeys h.nodes h'.nodes × (h' ≡ record h { nodes = h'.nodes })

Touches-refl : (h : Heap) → Touches h h
Touches-refl h = (λ p n e. (n, e, refl), refl)

-- What one operation comes to on the heap `h` that represents `s`.
abbrev pub Simulates : (Ptr → ℕ) → Ptr → Heap → KeySet → OpType → ℕ → Ptr → Run (ℤ × Ptr) → Type 0
Simulates height sentinel h s op key pnode r =
    (h' : Heap) × (p : Ptr) × (r ≡ ok (result_of op (s key), p) h')
    × IsSkiplist height sentinel h'
    × Represents (set_op op key s) h'
    × Told op (s key) key pnode p h'
    × Touches h h'

module _ (malloc : Heap → Ptr) {height : Ptr → ℕ} {sentinel : Ptr} (h : Heap)
    (whole : IsSkiplist height sentinel h) (s : KeySet) (same : Represents s h) (fuel key : ℕ)
    (enough : height sentinel + key + 1 < fuel) (pnode : Ptr) where
  absent : ¬ Has h.nodes key → s key ≡ false
  absent not_there = elim (Bool-cases (s key)) [
    | inl t ↦ absurd (not_there ((same key).0 t))
    | inr f ↦ f
  ]

  pub contains-Simulates :
      Simulates height sentinel h s contains key pnode
        (do_operation malloc fuel sentinel key contains pnode h)
  unfolding do_operation
  contains-Simulates =
      let (p, n, run, en, le) = traverse_index-enters h whole fuel key enough in
      elim (traverse_data-contains malloc h fuel key key p n pnode whole.layer en le
        (omega arith)) [
          | inl (r, has) ↦
              (h, pnode, rw (run, r, (same key).1 has) refl, whole, same, refl, Touches-refl h)
          | inr (r, not_there) ↦
              (h, pnode, rw (run, r, absent not_there) refl, whole, same, refl, Touches-refl h)
        ]

  -- The set where the key is taken out or put in, by what the new layer has at other keys and at it.
  put-Represents :
      (h' : Heap) (b : Bool)
      → ((j : ℕ) → j ≢ key → Has h.nodes j ↔ Has h'.nodes j)
      → (b ≡ true) ↔ Has h'.nodes key
      → Represents (put key b s) h'
  put-Represents h' b others at j = elim (ℕ_discrete j key) [
    | yes z ↦ rw (==_true j key z, z) at
    | no ne ↦
        let (to, from) = others j ne in
        rw (==_false j key ne) (λ t. to ((same j).0 t), λ has. (same j).1 (from has))
  ]

  Deleted-Represents : (h' : Heap) → Deleted h key h' → Represents (put key false s) h'
  Deleted-Represents h' d =
      put-Represents h' false
        (λ j ne. (λ (v, m). (v, (d.drops j v).1 (ne, m)), λ (v, m). (v, ((d.drops j v).0 m).1)))
        (λ t. ground arith, λ (v, m). absurd (((d.drops key v).0 m).0 refl))

  Inserted-Represents :
      (h' : Heap) (p : Ptr) → key ≢ null → Inserted h key key h' p → Represents (put key true s) h'
  Inserted-Represents h' p nz d =
      put-Represents h' true
        (λ j ne. (
          λ (v, m). (v, (d.puts j v).1 (inr (ne, m))),
          λ (v, m). elim ((d.puts j v).0 m) [ inl (z, _) ↦ absurd (ne z) | inr (_, m') ↦ (v, m') ],
        ))
        (λ _. (key, (d.puts key key).1 (inl (refl, refl))), λ _. refl)

  pub delete-Simulates :
      Simulates height sentinel h s delete key pnode
        (do_operation malloc fuel sentinel key delete pnode h)
  unfolding do_operation
  delete-Simulates =
      let (p, n, run, en, le) = traverse_index-enters h whole fuel key enough in
      elim (traverse_data-delete malloc h fuel key key p n pnode whole.layer en le (omega arith)) [
        | inl (h', r, d) ↦ (
          h',
          pnode,
          rw (run, r, (same key).1 d.was) refl,
          keeps-IsSkiplist whole h' d.ordered d.keeps d.rest,
          Deleted-Represents h' d,
          refl,
          (d.keeps, d.rest),
        )
        | inr (r, not_there) ↦ (
          h,
          pnode,
          rw (run, r, absent not_there) refl,
          whole,
          put-Represents h false (λ _ _. (λ x. x, λ x. x))
              (λ t. ground arith, λ has. absurd (not_there has)),
          refl,
          Touches-refl h,
        )
      ]

  told :
      (h' : Heap) (p : Ptr)
      → Inserted h key key h' p
      → (p ≢ null) × ((n : Node) × (h'.nodes p ≡ some n) × (n.key ≡ key))
  told h' p d = let (n, e, k, _) = d.there in (λ z. omega (arith, d.ordered.high p n e), (n, e, k))

  pub insert-Simulates :
      key ≢ null
      → key < 2 ^ 32
      → Supplies malloc h
      → Simulates height sentinel h s insert key pnode
          (do_operation malloc fuel sentinel key insert pnode h)
  unfolding do_operation
  insert-Simulates nz small supply =
      let (p, n, run, en, le) = traverse_index-enters h whole fuel key enough in
      elim (traverse_data-insert malloc h fuel key key p n pnode whole.layer en le (omega arith)
        small nz supply) [
          | inl (h', q, r, d) ↦ (
            h',
            q,
            rw (run, r, absent d.was_not) refl,
            keeps-IsSkiplist whole h' d.ordered d.keeps d.rest,
            Inserted-Represents h' q nz d,
            rw (absent d.was_not) (told h' q d),
            (d.keeps, d.rest),
          )
          | inr (r, has) ↦ (
            h,
            pnode,
            rw (run, r, (same key).1 has) refl,
            whole,
            put-Represents h true (λ _ _. (λ x. x, λ x. x)) (λ _. has, λ _. refl),
            rw ((same key).1 has) refl,
            Touches-refl h,
          )
        ]
