-- ===== src/Driver/Crossing.antt =====
-- The barrier holds its threads until the last one comes, but for those that wake too early, and can be
-- used again.
use mathlib.Core.Path.{subst}
use hosk.Base.{
  sym, Option-cases, inl, inr, ℕ, zero, suc, ◌+◌, ◌≤◌, ◌<◌, ◌≡◌, refl, List, [], ◌∷◌, length,
  length-append, lt→ltb, ltb-false, arith, some,
}
use hosk.Driver.{
  Barrier, barrier_init, barrier_cross, pull, let_through, wake_early, Event, cross, wake, run,
}

-- How many threads come, and how many wake too early.
abbrev pub crossings : List Event → ℕ
crossings [] = 0
crossings (cross t ∷ es) = suc (crossings es)
crossings (wake k ∷ es) = crossings es

abbrev pub wakes : List Event → ℕ
wakes [] = 0
wakes (cross t ∷ es) = wakes es
wakes (wake k ∷ es) = suc (wakes es)

-- Of the threads that came, those that do not wait are through.
abbrev Holds : ℕ → ℕ → ℕ → Barrier → Type 0
Holds n came woken b =
    (b.count ≡ n)
    × (b.crossing ≡ came)
    × (length b.waiting + length b.through ≡ came)
    × (length b.through ≤ woken)

cross-Holds :
    (n came woken t : ℕ) (b : Barrier)
    → came + 1 < n
    → Holds n came woken b
    → Holds n (came + 1) woken (barrier_cross t b)
unfolding barrier_cross
cross-Holds n came woken t b few (count, crossing, all, early) =
    rw (lt→ltb (b.crossing + 1) b.count (omega arith)) (count, omega arith, omega arith, early)

-- One thread fewer is left.
pull-length :
    (k : ℕ) (ts us : List ℕ) (u : ℕ) → pull k ts ≡ some (u, us) → length ts ≡ suc (length us)
pull-length k [] us u e = absurd (ground arith)
pull-length zero (t ∷ ts) us u e = ground arith
pull-length (suc k) (t ∷ ts) us u e = elim (Option-cases (pull k ts)) [
  | inl none_left ↦ absurd (ground arith)
  | inr ((v, vs), rest) ↦
      let fewer = pull-length k ts vs v rest in
      let same : t ∷ vs ≡ us = ground arith in
      subst (λ l. suc (length ts) ≡ suc (length l)) same (omega arith)
]

wake-Holds :
    (n came woken k : ℕ) (b : Barrier)
    → Holds n came woken b
    → Holds n came (woken + 1) (wake_early k b)
unfolding wake_early
wake-Holds n came woken k b (count, crossing, all, early) = elim (Option-cases (pull k b.waiting)) [
  | inl none_left ↦
      subst (λ o. Holds n came (woken + 1) (let_through b o)) (sym none_left)
        (count, crossing, all, omega arith)
  | inr ((t, ts), left) ↦
      let fewer = pull-length k b.waiting ts t left in
      subst (λ o. Holds n came (woken + 1) (let_through b o)) (sym left)
        (count, crossing, omega arith, omega arith)
]

last_one :
    (n came woken t : ℕ) (b : Barrier)
    → came + 1 ≡ n
    → Holds n came woken b
    → let c = barrier_cross t b in (c.waiting ≡ []) × (length c.through ≡ n) × (c.crossing ≡ 0)
unfolding barrier_cross
last_one n came woken t b last (count, crossing, all, early) =
    rw (ltb-false (b.crossing + 1) b.count (omega arith))
      (refl, omega (arith, length-append b.waiting b.through), refl)

run-Holds :
    (es : List Event) (n came woken : ℕ) (b : Barrier)
    → came + crossings es < n
    → Holds n came woken b
    → Holds n (came + crossings es) (woken + wakes es) (run es b)
unfolding run
run-Holds [] n came woken b few (count, crossing, all, early) =
    (count, omega arith, omega arith, omega arith)
run-Holds (cross t ∷ es) n came woken b few holds =
    let (count, crossing, all, early) =
      run-Holds es n (came + 1) woken (barrier_cross t b) (omega arith)
        (cross-Holds n came woken t b (omega arith) holds) in
    (count, omega arith, omega arith, omega arith)
run-Holds (wake k ∷ es) n came woken b few holds =
    let (count, crossing, all, early) =
      run-Holds es n came (woken + 1) (wake_early k b) (omega arith)
        (wake-Holds n came woken k b holds) in
    (count, omega arith, omega arith, omega arith)

-- Of as many threads as the barrier counts, until the last one comes, with any of them waking too
-- early: those that came wait or are through, and no more are through than woke too early, so that
-- without such a wake-up none is. When the last one comes all are through, nobody waits, and the
-- barrier counts from zero again.
pub barrier_cross-releases :
    (n : ℕ) (es : List Event) (t : ℕ)
    → crossings es + 1 ≡ n
    → let b = run es (barrier_init n) in
      let c = barrier_cross t b in
      (length b.through ≤ wakes es)
      × (length b.waiting + length b.through ≡ crossings es)
      × (c.waiting ≡ [])
      × (length c.through ≡ n)
      × (c.crossing ≡ 0)
unfolding barrier_init
barrier_cross-releases n es t all =
    let held = run-Holds es n 0 0 (barrier_init n) (omega arith) (refl, refl, refl, omega arith) in
    let (waiting, through, crossing) =
      last_one n (crossings es) (wakes es) t (run es (barrier_init n)) all
        (held.0, omega (arith, held.1), omega (arith, held.2), omega (arith, held.3)) in
    (omega (arith, held.3), omega (arith, held.2), waiting, through, crossing)
