-- ===== src/IntSet/Additions.antt =====
-- set_add adds a value to the set, unprotected or in a transaction.
use mathlib.Core.Path.{subst}
use hosk.Base.{
  ℕ, ◌≤◌, ◌<◌, ◌≡◌, refl, sym, ◌≢◌, ◌⊎◌, ◌↔◌, inl, inr, Bool, true, false, none, some, arith,
  ℕ_discrete, ◌==◌, ==_true, ==_false, leb, if◌then◌else◌,
}
use hosk.Enclave.{Ptr}
use hosk.Skiplist.{null, write}
use hosk.IntSet.{ListNode, Cells, Outcome, Stm, done, val_max, load, store, new_node}
use hosk.IntSet.Operations.{tx_search, set_add}
use hosk.IntSet.Sorted.{Has, IsSorted, IsSequential, Around, is_leb, scan_set-Ends, tx_search-Ends}
use hosk.IntSet.Neighbours.{found-Has, with_val, with_val-IsSorted, with_val-Has}

-- Where a new node goes.
abbrev pub place : (Cells → Ptr) → Stm → ℕ → Cells → Ptr
place malloc stm transactional h = if transactional == 0 then malloc h else stm.stm_malloc h

-- It says whether the value is new.
abbrev pub Adds : Ptr → Cells → ℕ → Outcome Bool → Type 0
Adds head h val r =
    (b : Bool) × (h' : Cells) × (r ≡ done b h')
    × IsSorted head h'
    × ((b ≡ true) ↔ ¬ Has h val)
    × ((j : ℕ) → Has h' j ↔ (Has h j ⊎ (j ≡ val)))

module _ (malloc : Cells → Ptr) (stm : Stm) (alone : IsSequential stm) (fuel : ℕ) {head : Ptr}
    (h : Cells) (is : IsSorted head h) (val : ℕ) (some_val : 0 < val) (inside : val < val_max)
    (enough : val < fuel) where
  -- The value is there already.
  add_old :
      {r : Outcome Bool} {prev next : Ptr} {n m : ListNode}
      → Around h val prev next n m
      → m.val ≡ val
      → r ≡ done false h
      → Adds head h val r
  add_old {next = next} {m = m} around same run =
      let has : Has h val = (next, m, around.here, same) in
      (
        false,
        h,
        run,
        is,
        (λ e. absurd (ground arith), λ no. absurd (no has)),
        λ j. (λ x. inl x, elim [ inl x ↦ x | inr z ↦ subst (Has h) (sym z) has ]),
      )

  add_new :
      (new : Ptr) {r : Outcome Bool} {prev next : Ptr} {n m : ListNode}
      (around : Around h val prev next n m) (live : new ≢ null) (unused : h new ≡ none)
      (differ : m.val ≢ val)
      → r ≡ done true (with_val is some_val inside around new live unused differ)
      → Adds head h val r
  add_new new {n = n} {m = m} around live unused differ run = (
    true,
    with_val is some_val inside around new live unused differ,
    run,
    with_val-IsSorted is some_val inside around new live unused differ,
    (λ _ has. ground (arith, (found-Has is some_val inside around).1 has), λ _. refl),
    with_val-Has is some_val inside around new live unused differ,
  )

  -- The node that is made and linked in, without and with a transaction.
  module _ (t : ℕ) (live : place malloc stm t h ≢ null)
      (unused : h (place malloc stm t h) ≡ none) where
    abbrev new : Ptr
    new = place malloc stm t h

    new_node-ok :
        (next : Ptr)
        → new_node malloc stm val next t h
          ≡ done new (write h new (some (record { val = val; next = next })))
    unfolding new_node store
    new_node-ok next = rw (==_false new null live) refl

    module _ {prev next : Ptr} {n m : ListNode} (around : Around h val prev next n m) where
      at_prev : write h new (some (record { val = val; next = next })) prev ≡ some n
      at_prev = ground (arith, around.before)

      load_prev :
          load prev (write h new (some (record { val = val; next = next })))
          ≡ done n (write h new (some (record { val = val; next = next })))
      unfolding load
      load_prev = rw (==_false prev null (is.live prev n around.before), at_prev) refl

  pub add-plain :
      place malloc stm 0 h ≢ null
      → h (place malloc stm 0 h) ≡ none
      → Adds head h val (set_add malloc stm fuel 0 head val h)
  unfolding set_add store
  add-plain live unused =
      let (prev, next, n, m, run, around) =
        scan_set-Ends h is val inside malloc stm alone fuel some_val enough in
      elim (ℕ_discrete m.val val) [
        | yes same ↦ add_old around same (rw (run, ==_true m.val val same) refl)
        | no differ ↦ add_new (malloc h) around live unused differ (
            rw
              (
                run,
                ==_false m.val val differ,
                new_node-ok 0 live unused next,
                load_prev 0 live unused around,
              )
              refl)
      ]

  -- The steps of an insertion in a transaction.
  tx_add_run :
      (t : ℕ) {new prev next : Ptr} {v : ℕ} {h1 h2 : Cells}
      → t ≢ 0
      → t ≤ 4
      → tx_search malloc stm fuel (leb t 2) head val h ≡ done (prev, next, v) h
      → v ≢ val
      → new_node malloc stm val next t h ≡ done new h1
      → stm.stm_store_next prev new h1 ≡ done tt h2
      → set_add malloc stm fuel t head val h ≡ done true h2
  unfolding set_add
  tx_add_run t {v = v} {h2 = h2} nz le run differ made stored =
      rw (==_false t 0 nz, is_leb t 4 le, run, ==_false v val differ, made, stored, alone.commit h2)
        refl

  pub add-tx :
      (t : ℕ)
      → t ≢ 0
      → t ≤ 4
      → place malloc stm t h ≢ null
      → h (place malloc stm t h) ≡ none
      → Adds head h val (set_add malloc stm fuel t head val h)
  unfolding set_add
  add-tx t nz le live unused =
      let (prev, next, n, m, run, around) =
        tx_search-Ends h is val inside malloc stm alone fuel (leb t 2) some_val enough in
      elim (ℕ_discrete m.val val) [
        | yes same ↦
            add_old around same (
              rw (==_false t 0 nz, is_leb t 4 le, run, ==_true m.val val same, alone.commit h) refl)
        | no differ ↦
            let new = place malloc stm t h in
            let h1 : Cells = write h new (some (record { val = val; next = next })) in
            add_new new around live unused differ (
              tx_add_run t nz le run differ (new_node-ok t live unused next) (
                alone.store_next prev new n h1 (is.live prev n around.before)
                  (at_prev t live unused around)))
      ]
