-- ===== src/Operation/Refinement.antt =====
-- Sequences of operations refine the set of keys.
use hosk.Base.{ℕ, ℤ, ◌+◌, ◌^◌, ◌<◌, ◌≡◌, refl, ◌≢◌, List, [], ◌∷◌, All}
use hosk.Enclave.{Ptr}
use hosk.Skiplist.{Heap, null, ok}
use hosk.Application.{OpType, contains, delete, insert}
use hosk.Application.Insert.{Supplies}
use hosk.Index.{IsSkiplist}
use hosk.Operation.{Request, do_operation, do_all}
use hosk.Operation.Set.{KeySet, Represents, set_op, set_all, results_of}
use hosk.Operation.Simulation.{Simulates, contains-Simulates, delete-Simulates, insert-Simulates}

-- A key that the program draws, with fuel for it.
abbrev pub Fits : (Ptr → ℕ) → Ptr → ℕ → Request → Type 0
Fits height sentinel fuel r = (r.key ≢ 0) × (r.key < 2 ^ 32) × (height sentinel + r.key + 1 < fuel)

-- malloc supplies a new node whenever one of the operations begins.
abbrev pub Supplied : (Heap → Ptr) → ℕ → Ptr → List Request → Heap → Type 0
Supplied malloc fuel sentinel [] h = Unit {0}
Supplied malloc fuel sentinel (r ∷ rs) h =
    Supplies malloc h
    × ((a : ℤ × Ptr) (h' : Heap)
        → do_operation malloc fuel sentinel r.key r.op null h ≡ ok a h'
        → Supplied malloc fuel sentinel rs h')

module _ (malloc : Heap → Ptr) {height : Ptr → ℕ} {sentinel : Ptr} where
  -- One operation on a skip list that represents a set of keys, the key being a nonzero 32-bit word,
  -- with more fuel than the index is high and the key is large: it ends, it returns 1 or 0 as the
  -- operation on the set does, it leaves a skip list that represents the set after it, through
  -- `pnode` it stores a data node with the key if it added the key, and nothing if not, the data nodes
  -- keep their keys, and the upper layers stay as they are.
  pub do_operation-Simulates :
      (h : Heap) (s : KeySet) (fuel key : ℕ) (op : OpType) (pnode : Ptr)
      → IsSkiplist height sentinel h
      → Represents s h
      → Fits height sentinel fuel (record { op = op; key = key })
      → Supplies malloc h
      → Simulates height sentinel h s op key pnode
          (do_operation malloc fuel sentinel key op pnode h)
  do_operation-Simulates h s fuel key contains pnode whole same (nz, small, enough) supply =
      contains-Simulates malloc h whole s same fuel key enough pnode
  do_operation-Simulates h s fuel key delete pnode whole same (nz, small, enough) supply =
      delete-Simulates malloc h whole s same fuel key enough pnode
  do_operation-Simulates h s fuel key insert pnode whole same (nz, small, enough) supply =
      insert-Simulates malloc h whole s same fuel key enough pnode nz small supply

  -- Any list of operations on a skip list that represents a set of keys: all of them end, their
  -- results are those of the set, and the skip list that is left represents the set that is left.
  -- The keys are nonzero 32-bit words, the fuel is more than the index is high and any key is large,
  -- and malloc supplies a new node whenever an operation begins.
  pub do_all-refines :
      (h : Heap) (s : KeySet) (fuel : ℕ) (rs : List Request)
      → IsSkiplist height sentinel h
      → Represents s h
      → All (Fits height sentinel fuel) rs
      → Supplied malloc fuel sentinel rs h
      → (h' : Heap) × (do_all malloc fuel sentinel rs h ≡ ok (results_of rs s) h')
        × IsSkiplist height sentinel h'
        × Represents (set_all rs s) h'
  unfolding do_all
  do_all-refines h s fuel [] whole same fits supplied = (h, refl, whole, same)
  do_all-refines h s fuel (r ∷ rs) whole same (fit, fits) (supply, later) =
      let (h', p, run, whole', same', _, _) =
        do_operation-Simulates h s fuel r.key r.op null whole same fit supply in
      let (last, runs, done, holds) =
        do_all-refines h' (set_op r.op r.key s) fuel rs whole' same' fits (later _ h' run) in
      (last, rw (run, runs) refl, done, holds)
