-- ===== src/Tests/Lists.antt =====
-- The integer set at a list of one value.
use hosk.Base.{refl, none, some, arith, ℕ_discrete}
use hosk.Skiplist.{write}
use hosk.IntSet.{ListNode, Cells, Stm, val_max, load, store, free, pure, ◌>>=◌}
use hosk.IntSet.Operations.{set_contains, set_add, set_remove}
use hosk.IntSet.Sorted.{IsSorted, IsSequential}
use hosk.IntSet.Protected.{Contains, set_operations-Implement}
use hosk.IntSet.Additions.{Adds}
use hosk.IntSet.Removals.{Removes}

abbrev min : ListNode
min = record { val = 0; next = 48 }

abbrev seven : ListNode
seven = record { val = 7; next = 64 }

abbrev max : ListNode
max = record { val = val_max; next = 0 }

abbrev pub cells : Cells
cells = write (write (write (λ _. none) 32 (some min)) 48 (some seven)) 64 (some max)

cells-IsSorted : IsSorted 32 cells
cells-IsSorted = record {
  chain = record {
    unique = ground arith;
    follows = λ p n e ne. elim (ℕ_discrete p 32) [
      | yes z ↦ (seven, ground arith, ground arith)
      | no nz ↦ (max, ground arith, ground arith)
    ];
    goes_on = ground arith;
    least = ground arith;
  };
  live = ground arith;
  first = (min, refl, refl);
  last = (64, max, refl, refl);
}

-- Transactions that read and write the memory as they go.
abbrev pub direct : Stm
direct = record {
  stm_start = λ b. pure tt;
  stm_load_val = λ p. load p >>= λ n. pure n.val;
  stm_load_next = λ p. load p >>= λ n. pure n.next;
  stm_store_next = λ p q. load p >>= λ n. store p (record n { next = q });
  stm_malloc = λ h. 80;
  stm_free = free;
  stm_commit = pure tt;
}

direct-IsSequential : IsSequential direct
unfolding load store free
direct-IsSequential = record {
  start = λ b h. refl;
  load_val = λ p n h live e. ground arith;
  load_next = λ p n h live e. ground arith;
  store_next = λ p q n h live e. ground arith;
  free = λ p h. refl;
  commit = λ h. refl;
}

set_operations-Implement_example :
    Contains cells 7 (set_contains (λ h. 80) direct 20 4 32 7 cells)
    × Adds 32 cells 7 (set_add (λ h. 80) direct 20 4 32 7 cells)
    × Removes 32 cells 7 (set_remove (λ h. 80) direct 20 4 32 7 cells)
set_operations-Implement_example =
    set_operations-Implement (λ h. 80) direct 4 20 cells 7 direct-IsSequential (omega arith)
      cells-IsSorted (omega arith) (omega arith) (omega arith) (omega arith) refl
