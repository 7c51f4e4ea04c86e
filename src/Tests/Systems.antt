-- ===== src/Tests/Systems.antt =====
-- Two enclaves over the data layer of Tests/Heaps, and steps of their threads.
use mathlib.Core.Path.{subst}
use hosk.Base.{
  inl, ℕ, ◌≡◌, refl, some, arith, [], ◌∷◌, Option, get_or, zero, suc, ◌<◌, replicate, sym,
}
use hosk.Enclave.{Enclave, no_op, new_enclave}
use hosk.Skiplist.{Heap, Run, ok}
use hosk.Application.{insert}
use hosk.Operation.Set.{set_all}
use hosk.Workload.{Loop, iterate}
use hosk.System.{Zone, State, heap_of, after, Limits, Step, work, done, more}
use hosk.System.Sound.{IsGood, IsSoundZone, IsSound}
use hosk.System.Progress.{GoesOn, Steps-GoesOn}
use hosk.Tests.Heaps.{nine, heap, heap-IsSkiplist, heap-Represents, keys, height, top, malloc}
use hosk.System.View.{IsCurrent}
use hosk.System.Current.{Steps-IsCurrent}
use hosk.Tests.Heaps.{second}
use hosk.Tests.Workloads.{room, seven, plain, begin}
use hosk.Tests.Fills.{loaded, mem}

abbrev lim : Limits
lim = record {
  count = 2;
  bound = 10;
  high = 2;
  fuel = 40;
  some_key = omega arith;
  word = omega arith;
  some_high = omega arith;
  few = omega arith;
  enough = omega arith;
}

abbrev zone : Zone ℕ
zone = record { enclave = loaded; loop = begin; inodes = heap.inodes; mnodes = heap.mnodes }

abbrev two : State ℕ
two = record { nodes = heap.nodes; zones = λ _. zone }

idle : (n k : ℕ) → get_or (replicate n no_op) k no_op ≡ no_op
idle zero k = refl
idle (suc n) zero = refl
idle (suc n) (suc k) = idle n k

loaded_jobs : (k : ℕ) → IsGood 10 heap.nodes (get_or loaded.opbuffer k no_op)
unfolding new_enclave
loaded_jobs zero = (λ ne. absurd (ne refl), omega arith)
loaded_jobs (suc zero) = (λ ne. (nine, refl, refl), omega arith)
loaded_jobs (suc (suc k)) =
    subst (IsGood 10 heap.nodes) (sym (idle 6 k)) (λ ne. absurd (ne refl), omega arith)

zone-IsSoundZone : IsSoundZone 10 2 heap.nodes zone
unfolding new_enclave
zone-IsSoundZone = record {
  height = height;
  whole = heap-IsSkiplist;
  low = omega arith;
  valid = record { storage = refl; app_in = omega arith; hlp_in = omega arith };
  jobs = loaded_jobs;
  below = ground arith;
}

two-IsSound : IsSound 10 2 2 keys two
two-IsSound = record { zone = λ i lt. zone-IsSoundZone; set_is = heap-Represents }

abbrev round : Run (Option (Loop ℕ × Enclave))
round = iterate seven plain malloc 40 top begin loaded heap

abbrev heap_after : {A : Type 0} → Run A → Heap
heap_after (ok a h) = h
heap_after _ = heap

abbrev loop_after : Run (Option (Loop ℕ × Enclave)) → Loop ℕ × Enclave
loop_after (ok (some a) h) = a
loop_after _ = (begin, loaded)

abbrev three : State ℕ
three = after two 0 (loop_after round).1 (loop_after round).0 (heap_after round)

two-Step : Step seven plain malloc mem lim two (some (record { op = insert; key = 7 })) three
unfolding iterate new_enclave
two-Step =
    work two 0 (loop_after round).0 (loop_after round).1 (heap_after round) (omega arith)
      (omega arith) (omega arith) (omega arith, refl) refl

Steps-GoesOn_example :
    IsSound 10 2 2 (set_all (record { op = insert; key = 7 } ∷ []) keys) three
    × ((i : ℕ)
        → i < 2
        → GoesOn seven plain malloc mem lim
            (set_all (record { op = insert; key = 7 } ∷ []) keys)
            three
            i)
Steps-GoesOn_example =
    Steps-GoesOn seven plain malloc mem lim two three (record { op = insert; key = 7 } ∷ []) keys
      two-IsSound
      (more two three three (some (record { op = insert; key = 7 })) [] two-Step (done three))

-- One enclave with an empty array.
abbrev lone : Limits
lone = record lim { count = 1 }

abbrev quiet : State ℕ
quiet = record {
  nodes = heap.nodes;
  zones = λ _. record { enclave = room; loop = begin; inodes = heap.inodes; mnodes = heap.mnodes };
}

quiet-IsSound : IsSound 10 2 1 keys quiet
unfolding new_enclave
quiet-IsSound = record {
  zone = λ i lt. record {
    height = height;
    whole = heap-IsSkiplist;
    low = omega arith;
    valid = record { storage = refl; app_in = omega arith; hlp_in = omega arith };
    jobs = λ k. subst (IsGood 10 heap.nodes) (sym (idle 4 k)) (λ ne. absurd (ne refl), omega arith);
    below = ground arith;
  };
  set_is = heap-Represents;
}

quiet-IsCurrent : IsCurrent keys heap room
unfolding new_enclave
quiet-IsCurrent = record {
  behind = inl refl;
  agrees = λ j nz. (λ (p, m, e, k, b). ground arith, λ t. (2024, second, refl, ground arith, refl));
}

abbrev quiet_round : Run (Option (Loop ℕ × Enclave))
quiet_round = iterate seven plain malloc 40 top begin room heap

abbrev busy : State ℕ
busy = after quiet 0 (loop_after quiet_round).1 (loop_after quiet_round).0 (heap_after quiet_round)

quiet-Step : Step seven plain malloc mem lone quiet (some (record { op = insert; key = 7 })) busy
unfolding iterate new_enclave
quiet-Step =
    work quiet 0 (loop_after quiet_round).0 (loop_after quiet_round).1 (heap_after quiet_round)
      (omega arith) (omega arith) (omega arith) (omega arith, refl) refl

Steps-IsCurrent_example :
    IsSound 10 2 1 (set_all (record { op = insert; key = 7 } ∷ []) keys) busy
    × IsCurrent
        (set_all (record { op = insert; key = 7 } ∷ []) keys)
        (heap_of busy.nodes (busy.zones 0))
        (busy.zones 0).enclave
Steps-IsCurrent_example =
    Steps-IsCurrent seven plain malloc mem lone quiet busy (record { op = insert; key = 7 } ∷ [])
      keys refl quiet-IsSound quiet-IsCurrent
      (more quiet busy busy (some (record { op = insert; key = 7 })) [] quiet-Step (done busy))
