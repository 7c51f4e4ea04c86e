-- ===== src/IntSet/Protected.antt =====
-- set_contains, set_add and set_remove are the operations of a set, unprotected or in a transaction.
use hosk.Base.{ℕ, zero, suc, ◌≤◌, ◌<◌, ◌≡◌, refl, ◌≢◌, ◌↔◌, Bool, true, none, arith, ◌==◌, ==_false}
use hosk.Enclave.{Ptr}
use hosk.Skiplist.{null}
use hosk.IntSet.{Cells, Outcome, Stm, done, val_max}
use hosk.IntSet.Operations.{set_contains, set_add, set_remove}
use hosk.IntSet.Sorted.{Has, IsSorted, IsSequential, is_leb, scan_set-Ends, tx_search-Ends}
use hosk.IntSet.Neighbours.{found-Has}
use hosk.IntSet.Additions.{place, Adds, add-plain, add-tx}
use hosk.IntSet.Removals.{Removes, remove-plain, remove-tx}

-- What set_contains comes to.
abbrev pub Contains : Cells → ℕ → Outcome Bool → Type 0
Contains h val r = (b : Bool) × (r ≡ done b h) × ((b ≡ true) ↔ Has h val)

module _ (malloc : Cells → Ptr) (stm : Stm) (alone : IsSequential stm) (fuel : ℕ) {head : Ptr}
    (h : Cells) (is : IsSorted head h) (val : ℕ) (some_val : 0 < val) (inside : val < val_max)
    (enough : val < fuel) where
  Contains-plain : Contains h val (set_contains malloc stm fuel 0 head val h)
  unfolding set_contains
  Contains-plain =
      let (prev, next, n, m, run, around) =
        scan_set-Ends h is val inside malloc stm alone fuel some_val enough in
      (m.val == val, rw run refl, found-Has is some_val inside around)

  Contains-tx : (t : ℕ) → t ≢ 0 → t ≤ 4 → Contains h val (set_contains malloc stm fuel t head val h)
  unfolding set_contains
  Contains-tx t nz le =
      let (prev, next, n, m, run, around) =
        tx_search-Ends h is val inside malloc stm alone fuel (t == 1) some_val enough in
      (
        m.val == val,
        rw (==_false t 0 nz, is_leb t 4 le, run, alone.commit h) refl,
        found-Has is some_val inside around,
      )

-- On the sorted list of an integer set, for a value strictly between the outer ones with more fuel
-- than the value is large, unprotected or in one of the transactions of a memory on which a transaction
-- that runs alone reads and writes as usual, and with an allocator that supplies a node: set_contains,
-- set_add and set_remove end without a fault; set_contains says whether the value is there and
-- changes nothing; set_add says whether it was not there, and afterwards the list has it and what it
-- had before; set_remove says whether it was there, and afterwards the list has what it had before but
-- the value; and the list stays sorted.
pub set_operations-Implement :
    (malloc : Cells → Ptr) (stm : Stm) (transactional fuel : ℕ) {head : Ptr} (h : Cells) (val : ℕ)
    → IsSequential stm
    → transactional ≤ 4
    → IsSorted head h
    → 0 < val
    → val < val_max
    → val < fuel
    → place malloc stm transactional h ≢ null
    → h (place malloc stm transactional h) ≡ none
    → Contains h val (set_contains malloc stm fuel transactional head val h)
      × Adds head h val (set_add malloc stm fuel transactional head val h)
      × Removes head h val (set_remove malloc stm fuel transactional head val h)
set_operations-Implement malloc stm zero fuel h val alone mode is some_val inside enough live
      unused =
    (
      Contains-plain malloc stm alone fuel h is val some_val inside enough,
      add-plain malloc stm alone fuel h is val some_val inside enough live unused,
      remove-plain malloc stm alone fuel h is val some_val inside enough,
    )
set_operations-Implement malloc stm (suc t) fuel h val alone mode is some_val inside enough live
      unused =
    (
      Contains-tx malloc stm alone fuel h is val some_val inside enough (suc t) (λ z. omega arith)
          mode,
      add-tx malloc stm alone fuel h is val some_val inside enough (suc t) (λ z. omega arith) mode
          live unused,
      remove-tx malloc stm alone fuel h is val some_val inside enough (suc t) (λ z. omega arith)
          mode,
    )
