-- ===== src/Tests/Enclaves.antt =====
-- Runs of the operation array and of the thread methods.
use hosk.Base.{ℕ, ◌+◌, ◌*◌, ◌≤◌, ◌<◌, ◌≡◌, refl, true, false, List, [], ◌∷◌, arith, length, take}
use hosk.Enclave.{Core, Op, Enclave, new_enclave, opbuffer_insert, opbuffer_remove, no_op}
use hosk.Enclave.OpBuffer.{Event, insert, remove, Trace, step, run, start}
use hosk.Enclave.OpBuffer.Queue.{run-fifo}
use hosk.Enclave.OpBuffer.Stall.{IsWrapped, run-stalls, run-bounded}
use hosk.Enclave.Threads.{Method, invoke_all, IsTracked, invoke_all-IsTracked}

abbrev core : Core
core = record { app = 3; hlp = 7 }

abbrev op : ℕ → Op
op k = record { key = k; node = k + 100 }

abbrev put : ℕ → Event
put k = insert k (k + 100)

-- Four operations into an array of five entries, and one more attempt to take each out.
abbrev script : List Event
script = put 1 ∷ put 2 ∷ put 3 ∷ remove ∷ put 4 ∷ remove ∷ remove ∷ put 5 ∷ put 6 ∷ remove ∷ []

-- The array after the script: of five operations two are taken out, and the rest stays for ever.
script-run :
    let t = run (start core 0 9 20 0 5 77) script in
    (t.removed ≡ op 1 ∷ op 2 ∷ [])
    × (t.inserted ≡ op 1 ∷ op 2 ∷ op 3 ∷ op 4 ∷ op 5 ∷ op 6 ∷ [])
    × (t.enclave.app_idx ≡ 1)
    × (t.enclave.hlp_idx ≡ 2)
unfolding run step start new_enclave opbuffer_insert opbuffer_remove
script-run = (refl, refl, refl, refl)

run-fifo_example :
    let t = run (start core 0 9 20 0 5 77) script in t.removed ≡ take (length t.removed) t.inserted
run-fifo_example = run-fifo core 0 9 20 0 5 77 script (omega arith)

run-bounded_example :
    let t = run (start core 0 9 20 0 5 77) script in
    (length t.removed + 3 ≤ 5) × (length t.inserted < 2 * 5)
run-bounded_example = run-bounded core 0 9 20 0 5 77 script (omega arith)

-- An array of five entries of which the application has gone round.
abbrev wrapped : Enclave
wrapped = record (new_enclave core 0 9 20 0 5 77) {
  opbuffer = op 6 ∷ op 2 ∷ op 3 ∷ op 4 ∷ op 5 ∷ [];
  buf_size = 5;
  app_idx = 1;
  hlp_idx = 2;
}

abbrev wrapped_trace : Trace
wrapped_trace = record { enclave = wrapped; inserted = []; removed = op 1 ∷ [] }

run-stalls_example :
    let t = run wrapped_trace (remove ∷ put 8 ∷ remove ∷ []) in
    IsWrapped t.enclave × (t.removed ≡ op 1 ∷ [])
run-stalls_example = run-stalls (remove ∷ put 8 ∷ remove ∷ []) wrapped_trace (omega arith)

-- Three operations in an array of five entries.
abbrev filled : Enclave
filled = record (new_enclave core 0 9 20 0 5 77) {
  opbuffer = op 1 ∷ op 2 ∷ op 3 ∷ no_op ∷ no_op ∷ [];
  buf_size = 5;
  app_idx = 3;
  hlp_idx = 0;
}

abbrev methods : List Method
methods =
    Method.start true
    ∷ Method.start false
    ∷ Method.populate 8 10
    ∷ Method.stop
    ∷ Method.start false
    ∷ Method.delete
    ∷ []

invoke_all-IsTracked_example : IsTracked (invoke_all (new_enclave core 0 9 20 0 5 77) methods)
invoke_all-IsTracked_example = invoke_all-IsTracked core 0 9 20 0 5 77 methods
