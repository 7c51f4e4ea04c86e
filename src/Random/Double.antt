-- ===== src/Random/Double.antt =====
-- The rounding of the product in rand_range_re.
use native.Mathlib.Nat.{div-add-mod', div-lt_iff_lt-mul, mul-le-mul_left, add-mul}
use hosk.Base.{
  ℕ, zero, suc, ◌+◌, ◌*◌, ◌/◌, ◌^◌, ◌≤◌, ◌<◌, ◌≡◌, refl, ◌⊎◌, inl, inr, arith, dec_lt, lt→ltb,
  ltb-false,
}
use hosk.Random.{ulp, round_to, round_double, scale, rand_max}

-- Neighbours of a number are close to it.
ulp-close : (k n : ℕ) → (ulp k n ≡ 1) ⊎ ((ulp k n * 2 ^ 52 ≤ n) × (0 < ulp k n))
unfolding ulp
ulp-close zero n = inl refl
ulp-close (suc k) n = elim (dec_lt n (2 ^ 53)) [
  | yes lt ↦ inl (rw (lt→ltb n (2 ^ 53) lt) refl)
  | no ge ↦ rw (ltb-false n (2 ^ 53) (omega arith)) (
      inr (elim (ulp-close k (n / 2)) [
        | inl e ↦ (omega arith, omega arith)
        | inr (le, pos) ↦ (omega arith, omega arith)
      ]))
]

-- The nearest multiple is at most half a step above.
round_to-close : (u n : ℕ) → 2 * round_to u n ≤ 2 * n + u
unfolding round_to
round_to-close u n =
    let whole = div-add-mod' n u in
    let next : (n / u + 1) * u ≡ n / u * u + u = grind (arith, add-mul (n / u) 1 u) in
    ground (arith, whole, next)

-- The product stays below its first factor.
pub scale-lt : (d x : ℕ) → 0 < d → d ≤ rand_max → x ≤ rand_max → scale d x < d
unfolding scale
scale-lt d x some_d small le =
    let top : d * x ≤ d * rand_max = mul-le-mul_left d le in
    let close = round_to-close (ulp 64 (d * x)) (d * x) in
    let below : round_double (d * x) < d * (rand_max + 1) = elim (ulp-close 64 (d * x)) [
      | inl e ↦ omega arith
      | inr (step, _) ↦ omega arith
    ] in
    (div-lt_iff_lt-mul (omega arith)).1 below
