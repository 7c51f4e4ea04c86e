-- ===== src/Random.antt =====
-- rand_range and rand_range_re of src/hosk/common.h. rand_r and rand of the C library are arguments,
-- rand with the state that it keeps.
pub mod Double
pub mod Range
use hosk.Base.{
  ℕ, zero, suc, ◌+◌, ◌-◌, ◌*◌, ◌/◌, ◌%◌, ◌^◌, Option, none, some, ◌==◌, ltb, if◌then◌else◌,
}

-- `RAND_MAX` of the GNU C library.
abbrev pub rand_max : ℕ
rand_max = 2 ^ 31 - 1

-- The distance of the doubles next to a number that is not below it, on fuel: a double has a
-- significand of 53 bits.
unfoldable pub ulp : ℕ → ℕ → ℕ
ulp zero n = 1
ulp (suc k) n = let rest = ulp k (n / 2) in if ltb n (2 ^ 53) then 1 else 2 * rest

-- The nearest multiple of `u`; of two, the even one.
unfoldable pub round_to : ℕ → ℕ → ℕ
round_to u n =
    let q = n / u in
    let r = n % u in
    if ltb (2 * r) u
    then q * u
    else if ltb u (2 * r)
    then (q + 1) * u
    else if q % 2 == 0
    then q * u
    else (q + 1) * u

-- The double nearest to a number below 2 ^ 117.
abbrev pub round_double : ℕ → ℕ
round_double n = round_to (ulp 64 n) n

-- `(int)(d * ((double)x/((double)(m)+1.0)))`: the divisor is a power of two, so that the quotient is
-- exact and the product is rounded just as `d * x` is.
unfoldable pub scale : ℕ → ℕ → ℕ
scale d x = round_double (d * x) / (rand_max + 1)

module _ {Seed : Type 0} (rand_r : Seed → ℕ × Seed) where
  -- The loop, on fuel; `v` is an `int`.
  unfoldable pub rand_loop : ℕ → ℕ → ℕ → Seed → Option (ℕ × Seed)
  unfolding scale
  rand_loop zero r v seed = none
  rand_loop (suc k) r v seed =
      let d = if ltb r rand_max then r else rand_max in
      let (x, seed') = rand_r seed in
      let v' = (v + (1 + scale d x)) % 2 ^ 32 in
      let rest = rand_loop k (r - rand_max) v' seed' in
      if ltb rand_max r then rest else some (v', seed')

  unfoldable pub rand_range_re : ℕ → ℕ → Seed → Option (ℕ × Seed)
  unfolding rand_loop
  rand_range_re fuel r seed = rand_loop fuel r 0 seed

-- The same loop over rand, whose state is not an argument of the source's function.
module _ {State : Type 0} (rand : State → ℕ × State) where
  unfoldable pub rand_range : ℕ → ℕ → State → Option (ℕ × State)
  rand_range fuel r state = rand_loop rand fuel r 0 state
