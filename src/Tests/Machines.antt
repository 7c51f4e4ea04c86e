-- ===== src/Tests/Machines.antt =====
-- The main thread's arithmetic, the barrier, the lock and the hardware layout on small inputs.
use hosk.Random.{rand_range_re, rand_loop, scale, ulp, round_to}
use hosk.Random.Range.{rand_range_re-bounds}
use hosk.Base.{
  refl, ℕ, ◌+◌, ◌%◌, ◌^◌, ◌≤◌, ◌<◌, ◌≡◌, ◌⊎◌, true, pos, negsuc, none, some, List, [], ◌∷◌, length,
  arith, ◌-◌,
}
use hosk.Driver.{floor_log_2, barrier_init, barrier_cross, wake_early, Event, cross, wake, run}
use hosk.Driver.Log.{floor_log_2-bounds}
use hosk.Driver.Crossing.{barrier_cross-releases}
use hosk.VersionedLock.{
  get_version, try_lock_at_version, spinlock, unlock_and_increment_version,
  unlock_increment_and_get_version, unlock_without_increment_version,
}
use hosk.VersionedLock.Exclusion.{
  State, Step, Steps, done, more, IsSound, after_try, try_lock-excludes, unlock-versions,
  spinlock-ends,
}
use hosk.Layout.{Place, get_hardware_layout}
use hosk.Layout.Places.{Laid, get_hardware_layout-Laid}

floor_log_2-bounds_example :
    let n : ℕ = 1000 in
    ((n ≡ 0) × (floor_log_2 n ≡ negsuc 0))
    ⊎ ((k : ℕ) × (floor_log_2 n ≡ pos k) × (2 ^ k ≤ n) × (n < 2 ^ (k + 1)))
floor_log_2-bounds_example = floor_log_2-bounds 1000 (omega arith)

-- Two threads come and the second wakes too early.
abbrev crossings : List Event
crossings = cross 7 ∷ cross 8 ∷ wake 0 ∷ []

barrier_cross-releases_example :
    let b = run crossings (barrier_init 3) in
    let c = barrier_cross 9 b in
    (length b.through ≤ 1)
    × (length b.waiting + length b.through ≡ 2)
    × (c.waiting ≡ [])
    × (length c.through ≡ 3)
    × (c.crossing ≡ 0)
barrier_cross-releases_example = barrier_cross-releases 3 crossings 9 (omega arith)

early_through : (run crossings (barrier_init 3)).through ≡ 8 ∷ []
unfolding barrier_init barrier_cross run wake_early
early_through = refl

abbrev locked : State
locked = record { lock = 7; holder = some 2 }

abbrev unlocked : State
unlocked = record { lock = 6; holder = none }

lock_once : Steps unlocked locked
unfolding get_version try_lock_at_version
lock_once = more unlocked locked locked (Step.try 2 6 unlocked) (done locked)

try_lock-excludes_example :
    IsSound locked × ((t u seen : ℕ) → some 2 ≡ some t → after_try u seen locked ≡ locked)
try_lock-excludes_example = try_lock-excludes 6 locked (omega arith) (omega arith) lock_once

unlock-versions_example :
    let (got, w) = try_lock_at_version 6 (get_version 6) in
    (got ≡ true)
    × (unlock_and_increment_version w ≡ 8)
    × (unlock_increment_and_get_version w ≡ (8, 8))
    × (unlock_without_increment_version w ≡ 6)
unlock-versions_example = unlock-versions 6 (omega arith) (omega arith)

spinlock-ends_example : (w : ℕ) × (spinlock ((7, 7) ∷ (6, 7) ∷ (8, 8) ∷ []) ≡ some w) × (w % 2 ≡ 1)
spinlock-ends_example = spinlock-ends ((7, 7) ∷ (6, 7) ∷ []) [] 8 (omega arith) (omega arith)

get_hardware_layout-Laid_example :
    (ps : List Place) × (get_hardware_layout true 2 2 4 16 ≡ some ps)
    × (length ps ≡ 16)
    × Laid 2 4 0 ps
get_hardware_layout-Laid_example = get_hardware_layout-Laid 2 4 (omega arith) (omega arith)

-- A generator of numbers near RAND_MAX.
abbrev large_rand : ℕ → ℕ × ℕ
large_rand seed = (2 ^ 31 - 1 - seed % 10, seed + 7)

rand_range_re-bounds_example :
    (w : ℕ) × (end : ℕ) × (rand_range_re large_rand 30 25 3 ≡ some (w, end)) × (1 ≤ w) × (w ≤ 25)
rand_range_re-bounds_example =
    rand_range_re-bounds large_rand (λ seed. omega arith) 30 25 3 (omega arith) (omega arith)
      (omega arith)

-- The last value but two of rand_r gives the last value.
draws_last : rand_range_re large_rand 30 25 3 ≡ some (25, 10)
unfolding rand_range_re rand_loop scale ulp round_to
draws_last = refl
