-- ===== src/Tests/Skiplists.antt =====
-- Operations and publications on the heap of Tests/Heaps.
use mathlib.Core.Path.{subst, ap}
use hosk.Base.{◌+◌, ◌≡◌, refl, false, pos, List, [], ◌∷◌, arith}
use hosk.Skiplist.{Heap, Run, null, ok, fault, aborted, out_of_fuel}
use hosk.Skiplist.Upper.{Memory}
use hosk.Application.{delete, insert}
use hosk.Application.Insert.{Supplies}
use hosk.Index.{IsSkiplist}
use hosk.Operation.{Request, do_operation, do_all}
use hosk.Operation.Set.{Represents, set_all}
use hosk.Operation.Simulation.{Simulates}
use hosk.Operation.Refinement.{Supplied, do_operation-Simulates, do_all-refines}
use hosk.Helper.{update_intermediate_layer}
use hosk.Helper.Publish.{Published, update_intermediate_layer-Published}
use hosk.Tests.Heaps.{base, nine, heap, heap-IsSkiplist, heap-Represents, keys, height, top, malloc}

do_operation-Simulates_example :
    Simulates height top heap keys insert 7 0 (do_operation malloc 20 top 7 insert 0 heap)
do_operation-Simulates_example =
    do_operation-Simulates malloc heap keys 20 7 insert 0 heap-IsSkiplist heap-Represents
      (omega arith, omega arith, omega arith) (omega arith, refl)

-- A removal of the key that is there, then an insert of another.
abbrev requests : List Request
requests = record { op = delete; key = 5 } ∷ record { op = insert; key = 7 } ∷ []

abbrev heap_after : {A : Type 0} → Run A → Heap
heap_after (ok a h) = h
heap_after fault = heap
heap_after aborted = heap
heap_after out_of_fuel = heap

second_supply : Supplies malloc (heap_after (do_operation malloc 20 top 5 delete null heap))
unfolding do_operation
second_supply = (omega arith, refl)

requests-Supplied : Supplied malloc 20 top requests heap
requests-Supplied = (
  (omega arith, refl),
  λ a h' e. (subst (Supplies malloc) (ap heap_after e) second_supply, λ b h'' f. tt),
)

do_all-refines_example :
    (h' : Heap) × (do_all malloc 20 top requests heap ≡ ok (pos 1 ∷ pos 1 ∷ []) h')
    × IsSkiplist height top h'
    × Represents (set_all requests keys) h'
do_all-refines_example =
    do_all-refines malloc heap keys 20 requests heap-IsSkiplist heap-Represents
      ((omega arith, omega arith, omega arith), ((omega arith, omega arith, omega arith), tt))
      requests-Supplied

abbrev mem : Memory
mem = record { malloc = malloc; nalloc = λ h. 3000; base_malloc = false; buf_old = λ h. 0 }

update_intermediate_layer-Published_example :
    Published height top heap
      (record { key = 9; node = base + 128 })
      (update_intermediate_layer mem 20 top (record { key = 9; node = base + 128 }) heap)
update_intermediate_layer-Published_example =
    update_intermediate_layer-Published mem heap 20 (record { key = 9; node = base + 128 })
      heap-IsSkiplist (omega arith) (λ ne. (nine, refl, refl)) (omega arith, refl)
