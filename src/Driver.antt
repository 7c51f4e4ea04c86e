-- ===== src/Driver.antt =====
-- The main thread of src/hosk/test.cpp: how the initial elements are shared out among the enclaves,
-- the level of the index that it waits for, and the barrier at which the threads start.
pub mod Assignment
pub mod Crossing
pub mod Init
pub mod Lifecycle
pub mod Log
pub mod Options
pub mod Shares
pub mod Totals
use hosk.Base.{
  ℕ, zero, suc, ◌+◌, ◌-◌, ◌*◌, ◌/◌, ◌%◌, ◌^◌, ℤ, pos, negsuc, Bool, true, false, Option, none, some,
  List, [], ◌∷◌, ◌++◌, ◌==◌, leb, ltb, if◌then◌else◌,
}

-- A line of floor_log_2: `if (n >= 1<<k) { n >>= k; pos += k; }`.
abbrev shift : ℕ → ℕ × ℕ → ℕ × ℕ
shift k (n, p) = if leb (2 ^ k) n then (n / 2 ^ k, p + k) else (n, p)

unfoldable pub floor_log_2 : ℕ → ℤ
floor_log_2 n =
    let (m, p) = shift 2 (shift 4 (shift 8 (shift 16 (n, 0)))) in
    let last = if leb 2 m then p + 1 else p in if m == 0 then negsuc 0 else pos last

-- The elements that each of the enclaves from `j` on adds; `left` enclaves are still to come.
unfoldable pub shares : ℕ → ℕ → ℕ → ℕ → List ℕ
shares initial nb_threads j zero = []
shares initial nb_threads j (suc left) =
    let d = initial / nb_threads in
    let m = initial % nb_threads in
    (if ltb j m then d + 1 else d) ∷ shares initial nb_threads (j + 1) left

-- `barrier_t`, with the threads that wait at the condition variable.
pub record Barrier : Type 0 where
  pub count : ℕ
  pub crossing : ℕ
  pub waiting : List ℕ
  pub through : List ℕ

unfoldable pub barrier_init : ℕ → Barrier
barrier_init n = record { count = n; crossing = 0; waiting = []; through = [] }

-- barrier_cross by thread `t`, up to where it waits or wakes the others: the mutex makes it one step.
-- Those that it wakes go through.
unfoldable pub barrier_cross : ℕ → Barrier → Barrier
barrier_cross t b =
    if ltb (b.crossing + 1) b.count
    then record b { crossing = b.crossing + 1; waiting = t ∷ b.waiting }
    else record b { crossing = 0; waiting = []; through = t ∷ b.waiting ++ b.through }

-- Takes out the thread at a place.
abbrev pub pull : ℕ → List ℕ → Option (ℕ × List ℕ)
pull k [] = none
pull zero (t ∷ ts) = some (t, ts)
pull (suc k) (t ∷ ts) = elim (pull k ts) [ none ↦ none | some (u, us) ↦ some (u, t ∷ us) ]

-- pthread_cond_wait may return without a broadcast; barrier_cross does not test again, so the thread
-- goes through.
abbrev pub let_through : Barrier → Option (ℕ × List ℕ) → Barrier
let_through b none = b
let_through b (some (t, ts)) = record b { waiting = ts; through = t ∷ b.through }

unfoldable pub wake_early : ℕ → Barrier → Barrier
wake_early k b = let_through b (pull k b.waiting)

-- What happens at the barrier: a thread comes, or the waiting thread at a place wakes too early.
pub data Event : Type 0 where
  cross : ℕ → Event
  wake : ℕ → Event

unfoldable pub run : List Event → Barrier → Barrier
run [] b = b
run (cross t ∷ es) b = run es (barrier_cross t b)
run (wake k ∷ es) b = run es (wake_early k b)
