-- ===== src/Driver/Log.antt =====
-- The position of the highest bit.
use hosk.Base.{
  ℕ, ◌+◌, ◌^◌, ◌≤◌, ◌<◌, ◌≡◌, ◌≢◌, refl, ap, ◌∙◌, ℕ_discrete, ◌⊎◌, inl, inr, ℤ, pos, negsuc, arith,
}
use hosk.Driver.{floor_log_2}

bounds : (n : ℕ) → n < 2 ^ 32 → (k : ℕ) → floor_log_2 n ≡ pos k → (2 ^ k ≤ n) × (n < 2 ^ (k + 1))
unfolding floor_log_2
bounds n small k e = ground arith

not_negative : (n : ℕ) → n ≢ 0 → (k : ℕ) → floor_log_2 n ≢ negsuc k
unfolding floor_log_2
not_negative n some k = ground arith

is_pos : (i : ℤ) → ((k : ℕ) → i ≢ negsuc k) → (k : ℕ) × (i ≡ pos k)
is_pos (pos k) never = (k, refl)
is_pos (negsuc k) never = absurd (never k refl)

at_zero : floor_log_2 0 ≡ negsuc 0
unfolding floor_log_2
at_zero = refl

-- For a 32-bit word, floor_log_2 returns -1 if it is 0; if not, it returns the one k with
-- 2 ^ k at most the word and 2 ^ (k + 1) above it.
pub floor_log_2-bounds :
    (n : ℕ)
    → n < 2 ^ 32
    → ((n ≡ 0) × (floor_log_2 n ≡ negsuc 0))
      ⊎ ((k : ℕ) × (floor_log_2 n ≡ pos k) × (2 ^ k ≤ n) × (n < 2 ^ (k + 1)))
floor_log_2-bounds n small = elim (ℕ_discrete n 0) [
  | yes z ↦ inl (z, ap floor_log_2 z ∙ at_zero)
  | no ne ↦
      let (k, e) = is_pos (floor_log_2 n) (not_negative n ne) in
      let (low, high) = bounds n small k e in inr (k, e, low, high)
]
