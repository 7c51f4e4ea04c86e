-- ===== src/Tests/Fills.antt =====
-- The population of the heap of Tests/Heaps, and the draining of an array over it.
use hosk.Application.Insert.{Supplies}
use mathlib.Core.Path.{subst, ap}
use hosk.Base.{
  ℕ, ◌+◌, ◌≡◌, refl, false, [], ◌∷◌, arith, some, Option, if◌then◌else◌, inr, inl, ◌==◌,
}
use hosk.Enclave.{Ptr, Enclave, new_enclave, no_op}
use hosk.Skiplist.{Heap, Run, null, ok, fault, aborted, out_of_fuel}
use hosk.Skiplist.Upper.{Memory}
use hosk.Skiplist.Zones.{check_all, on_node, off_node, check_all-counts}
use hosk.Application.{insert}
use hosk.Operation.{do_operation}
use hosk.Operation.Refinement.{Supplied}
use hosk.Workload.Populate.{InitParam, initial_populate}
use hosk.Workload.Populated.{initial_populate-Populates}
use hosk.Workload.News.{Populates, inserts}
use hosk.Tests.Heaps.{base, heap, heap-IsSkiplist, heap-Represents, keys, height, top, malloc}

abbrev heap_after : {A : Type 0} → Run A → Heap
heap_after (ok a h) = h
heap_after fault = heap
heap_after aborted = heap
heap_after out_of_fuel = heap

-- A removal of 5, an insert of 9, and two operations that stay in the array.
abbrev pub loaded : Enclave
loaded = record (new_enclave (record { app = 0; hlp = 1 }) 0 top 10 0 8 1) {
  opbuffer =
      record { key = 5; node = 0 }
      ∷ record { key = 9; node = base + 128 }
      ∷ no_op
      ∷ no_op
      ∷ no_op
      ∷ no_op
      ∷ no_op
      ∷ no_op
      ∷ [];
  app_idx = 4;
}

abbrev pub mem : Memory
mem = record { malloc = malloc; nalloc = λ h. 3000; base_malloc = false; buf_old = λ h. 0 }

-- Draws 5, which is there, and then 6.
abbrev draw : ℕ → ℕ → ℕ × ℕ
draw range seed = (seed, seed + 1)

abbrev asked : Enclave
asked = record (new_enclave (record { app = 0; hlp = 1 }) 0 top 10 0 8 1) { num_populate = 1 }

abbrev begin : InitParam ℕ
begin = record { num = 1; range = 100; seed = 5; last = 0 }

third_supply : Supplies malloc (heap_after (do_operation malloc 20 top 5 insert null heap))
unfolding do_operation
third_supply = (omega arith, refl)

draws-Supplied : Supplied malloc 20 top (inserts (5 ∷ 6 ∷ [])) heap
draws-Supplied = (
  (omega arith, refl),
  λ a h' e. (subst (Supplies malloc) (ap heap_after e) third_supply, λ b h'' f. tt),
)

initial_populate-Populates_example :
    Populates height top keys asked 0 (6 ∷ []) (initial_populate draw malloc 20 3 begin asked heap)
unfolding new_enclave
initial_populate-Populates_example =
    initial_populate-Populates draw malloc 20 2 3 keys heap begin asked heap-IsSkiplist
      heap-Represents refl refl (omega arith) (omega arith) (omega arith, (omega arith, tt))
      ((omega arith, omega arith, omega arith), ((omega arith, omega arith, omega arith), tt))
      draws-Supplied (omega arith)

-- One address is on the first NUMA node, the others on the second.
abbrev policy : Ptr → Option ℕ
policy p = if p == 6 then some 0 else some 1

check_all-counts_example : check_all policy 0 (6 ∷ 0 ∷ 7 ∷ []) (3, 4) false ≡ some (4, 5)
unfolding on_node off_node
check_all-counts_example =
    check_all-counts policy 0 (6 ∷ 0 ∷ 7 ∷ []) 3 4 false
      (inr (0, refl), (inl refl, (inr (1, refl), tt)))
