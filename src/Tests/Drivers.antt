-- ===== src/Tests/Drivers.antt =====
-- The first nodes of an enclave, and the cores of five enclaves on two sockets.
use hosk.Base.{ℕ, ◌^◌, ◌≡◌, refl, some, false, pos, [], ◌∷◌, length, arith, true}
use hosk.Enclave.{Ptr, Enclave}
use hosk.Enclave.OpBuffer.{IsValid}
use hosk.Skiplist.{Heap, ok}
use hosk.Skiplist.Upper.{Memory}
use hosk.Index.{IsSkiplist}
use hosk.Operation.Set.{Represents}
use hosk.Driver.Init.{thread_init, empty, thread_init-Ready}
use hosk.Driver.Assignment.{Spread, assign, assign-Spread}
use hosk.Driver.Options.{Flag, defaults, parse, are_valid, set_option}

abbrev mem : Memory
mem = record { malloc = λ h. 1000; nalloc = λ h. 2000; base_malloc = true; buf_old = λ h. 2000 }

thread_init-Ready_example :
    (height : Ptr → ℕ) × (e : Enclave) × (h : Heap) × (thread_init mem
        (record { app = 0; hlp = 1 })
        0
        (2 ^ 32)
        20
        0
        8
        1
        (empty (2 ^ 32) 1)
      ≡ ok e h)
    × IsSkiplist height e.sentinel h
    × (height e.sentinel ≡ 1)
    × Represents (λ _. false) h
    × IsValid e
    × (e.app_idx ≡ e.hlp_idx)
thread_init-Ready_example =
    thread_init-Ready mem (record { app = 0; hlp = 1 }) 0 (2 ^ 32) 1 20 0 8 1 (omega arith)
      (omega arith) (omega arith) (omega arith)

assign-Spread_example : Spread 2 4 0 (assign 2 0 0 0 5) × (length (assign 2 0 0 0 5) ≡ 5)
assign-Spread_example = assign-Spread 2 4 5 (omega arith) (omega arith)

-- The default number of threads is one that the program refuses.
defaults_refused : are_valid 2 (defaults 2) ≡ false
unfolding are_valid
defaults_refused = refl

two_threads :
    parse ((Flag.threads, pos 2) ∷ []) (defaults 2)
    ≡ some (record (defaults 2) { nb_threads = pos 2 })
unfolding parse set_option
two_threads = refl
