-- ===== src/Random/Range.antt =====
-- The values that rand_range_re and rand_range draw are between 1 and its argument, both included.
use native.Mathlib.Nat.{mod-eq_of_lt}
use hosk.Base.{
  ℕ, zero, suc, ◌+◌, ◌-◌, ◌%◌, ◌^◌, ◌≤◌, ◌<◌, ◌≡◌, refl, Option, some, ltb, lt→ltb, ltb-false,
  if◌then◌else◌, dec_lt, arith,
}
use hosk.Random.Double.{scale-lt}
use hosk.Random.{rand_max, scale, rand_loop, rand_range, rand_range_re}

module _ {Seed : Type 0} (rand_r : Seed → ℕ × Seed)
    (in_range : (seed : Seed) → (rand_r seed).0 ≤ rand_max) where
  abbrev Draws : ℕ → ℕ → Option (ℕ × Seed) → Type 0
  Draws v r o = (w : ℕ) × (seed : Seed) × (o ≡ some (w, seed)) × (v < w) × (w ≤ v + r)

  rand_loop-Draws :
      (k r v : ℕ) (seed : Seed)
      → 0 < r
      → r < k
      → v + r < 2 ^ 31
      → Draws v r (rand_loop rand_r k r v seed)
  unfolding rand_loop
  rand_loop-Draws zero r v seed some_r enough small = absurd (omega arith)
  rand_loop-Draws (suc k) r v seed some_r enough small = elim (dec_lt rand_max r) [
    | yes more ↦
        let x = (rand_r seed).0 in
        let s = scale-lt rand_max x (omega arith) (omega arith) (in_range seed) in
        let e : (v + (1 + scale rand_max x)) % 2 ^ 32 ≡ v + (1 + scale rand_max x) =
          mod-eq_of_lt (omega arith) in
        let (w, end, run, low, high) =
          rand_loop-Draws k (r - rand_max) ((v + (1 + scale rand_max x)) % 2 ^ 32) (rand_r seed).1
            (omega arith) (omega arith) (omega arith) in
        (
          w,
          end,
          rw (lt→ltb rand_max r more, ltb-false r rand_max (omega arith)) run,
          omega arith,
          omega arith,
        )
    | no fits ↦
        let x = (rand_r seed).0 in
        let d : (if ltb r rand_max then r else rand_max) ≡ r = ground arith in
        let s = scale-lt r x some_r (omega arith) (in_range seed) in
        let e : (v + (1 + scale r x)) % 2 ^ 32 ≡ v + (1 + scale r x) = mod-eq_of_lt (omega arith) in
        (
          v + (1 + scale r x),
          (rand_r seed).1,
          rw (d, ltb-false rand_max r (omega arith), e) refl,
          omega arith,
          omega arith,
        )
  ]

-- For an argument from 1 to 2 ^ 31 - 1, with that much fuel, where rand_r stays within RAND_MAX:
-- rand_range_re ends, with a value from 1 to its argument.
pub rand_range_re-bounds :
    {Seed : Type 0} (rand_r : Seed → ℕ × Seed)
    → ((seed : Seed) → (rand_r seed).0 ≤ rand_max)
    → (fuel r : ℕ) (seed : Seed) → 0 < r
    → r < 2 ^ 31
    → r < fuel
    → (w : ℕ) × (end : Seed) × (rand_range_re rand_r fuel r seed ≡ some (w, end))
      × (1 ≤ w)
      × (w ≤ r)
unfolding rand_range_re
rand_range_re-bounds rand_r in_range fuel r seed some_r small enough =
    let (w, end, run, low, high) =
      rand_loop-Draws rand_r in_range fuel r 0 seed some_r enough (omega arith) in
    (w, end, run, omega arith, omega arith)

-- The same of rand_range, where rand stays within RAND_MAX.
rand_range-bounds :
    {State : Type 0} (rand : State → ℕ × State)
    → ((state : State) → (rand state).0 ≤ rand_max)
    → (fuel r : ℕ) (state : State) → 0 < r
    → r < 2 ^ 31
    → r < fuel
    → (w : ℕ) × (end : State) × (rand_range rand fuel r state ≡ some (w, end)) × (1 ≤ w) × (w ≤ r)
unfolding rand_range rand_range_re
rand_range-bounds = rand_range_re-bounds
