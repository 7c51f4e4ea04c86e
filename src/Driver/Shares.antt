-- ===== src/Driver/Shares.antt =====
-- The initial elements are shared out in full and evenly.
use native.Mathlib.Nat.{suc-mul, zero-mul, div-add-mod, mod-lt}
use hosk.Base.{
  ℕ, zero, suc, ◌+◌, ◌-◌, ◌*◌, ◌/◌, ◌%◌, ◌≤◌, ◌<◌, ◌≡◌, refl, List, [], ◌∷◌, All, length, arith,
}
use hosk.Driver.{shares}

abbrev pub sum : List ℕ → ℕ
sum [] = 0
sum (x ∷ xs) = x + sum xs

module _ (initial n : ℕ) where
  -- What the enclaves from `j` on add: the quotient each, and one more for each before the remainder.
  sum_from :
      (j left : ℕ)
      → j + left ≡ n
      → initial % n < n
      → sum (shares initial n j left) ≡ left * (initial / n) + (initial % n - j)
  unfolding shares
  sum_from j zero e lt = omega (arith, zero-mul (initial / n))
  sum_from j (suc left) e lt =
      let h = sum_from (j + 1) left (omega arith) lt in
      let k = suc-mul left (initial / n) in ground (arith, h, k)

  even_from :
      (j left : ℕ) → All (λ x. (initial / n ≤ x) × (x ≤ initial / n + 1)) (shares initial n j left)
  unfolding shares
  even_from j zero = tt
  even_from j (suc left) = (ground arith, even_from (j + 1) left)

  length_from : (j left : ℕ) → length (shares initial n j left) ≡ left
  unfolding shares
  length_from j zero = refl
  length_from j (suc left) = omega (arith, length_from (j + 1) left)

-- With at least one enclave there are as many shares as enclaves, they add up to the initial
-- elements, and no two of them differ by more than one.
pub shares-sum :
    (initial n : ℕ)
    → 0 < n
    → (length (shares initial n 0 n) ≡ n)
      × (sum (shares initial n 0 n) ≡ initial)
      × All (λ x. (initial / n ≤ x) × (x ≤ initial / n + 1)) (shares initial n 0 n)
shares-sum initial n some = (
  length_from initial n 0 n,
  omega (arith, sum_from initial n 0 n (omega arith) (mod-lt initial some), div-add-mod initial n),
  even_from initial n 0 n,
)
