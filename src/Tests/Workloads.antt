-- ===== src/Tests/Workloads.antt =====
-- Rounds of the application thread.
use hosk.Operation.Simulation.{Touches}
use hosk.Base.{ℕ, ℤ, ◌+◌, ◌≡◌, ◌≢◌, refl, true, false, pos, negsuc, List, [], ◌∷◌, arith}
use hosk.Enclave.{Ptr, Enclave, new_enclave}
use hosk.Skiplist.{Heap, ok}
use hosk.Application.{contains, delete, insert}
use hosk.Index.{IsSkiplist}
use hosk.Operation.Set.{Represents, set_op}
use hosk.Helper.Publish.{IsJob}
use hosk.Workload.{AppParam, Loop, iterate, choose}
use hosk.Workload.Choices.{
  zero_res, rounds, Counts, Balanced, rounds-never_delete, rounds-Counts, rounds-Balanced,
}
use hosk.Workload.Iteration.{after_round, iterate-round}
use hosk.Tests.Heaps.{heap, heap-IsSkiplist, heap-Represents, keys, height, top, malloc}

-- A generator that draws 7 each time.
abbrev pub seven : ℕ → ℕ → ℕ × ℕ
seven r seed = (7, seed + 1)

abbrev pub plain : AppParam
plain = record { first = 1; range = 100; update = 50; alternate = false; effective = true }

abbrev alternating : AppParam
alternating = record { first = 1; range = 100; update = 50; alternate = true; effective = true }

abbrev pub begin : Loop ℕ
begin = record {
  unext = true;
  last = negsuc 0;
  key = 0;
  otype = contains;
  ares = zero_res;
  seed = 0;
}

abbrev results : List ℤ
results = pos 1 ∷ pos 1 ∷ pos 0 ∷ []

begin_reads : begin.otype ≢ delete
begin_reads = ground arith

zero-Counts : Counts 0 zero_res
zero-Counts = record { all = refl; added = omega arith; removed = omega arith; found = omega arith }

rounds-never_delete_example :
    let l = rounds seven plain results begin in
    (l.otype ≢ delete) × (l.ares.remove ≡ 0) × (l.ares.removed ≡ 0)
rounds-never_delete_example = rounds-never_delete seven plain results begin refl begin_reads

rounds-Counts_example : Counts 3 (rounds seven alternating results begin).ares
rounds-Counts_example = rounds-Counts seven alternating results 0 begin (omega arith) zero-Counts

rounds-Balanced_example : Balanced seven alternating (rounds seven alternating results begin)
rounds-Balanced_example =
    rounds-Balanced seven alternating results begin refl (omega arith) (omega arith) (omega arith)

abbrev pub room : Enclave
room = record (new_enclave (record { app = 0; hlp = 1 }) 0 top 10 0 4 1) { running = true }

iterate-round_example :
    let c = choose seven plain begin in
    (h' : Heap) × (p : Ptr) × (iterate seven plain malloc 20 top begin room heap
      ≡ ok (after_round seven plain c room (keys c.key) p) h')
    × IsSkiplist height top h'
    × Represents (set_op c.otype c.key keys) h'
    × IsJob h' (record { key = c.key; node = p })
    × (c.otype ≡ insert → keys c.key ≡ false → p ≢ 0)
    × (c.otype ≡ delete → p ≡ 0)
    × Touches heap h'
unfolding choose new_enclave
iterate-round_example =
    iterate-round seven plain malloc heap keys 20 begin room heap-IsSkiplist heap-Represents
      (omega arith, omega arith, omega arith) (omega arith, refl)
