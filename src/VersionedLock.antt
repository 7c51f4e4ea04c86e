-- ===== src/VersionedLock.antt =====
-- The versioned try-lock of src/utils/versioned-lock/versioned-lock.c: an unsigned 32-bit word whose
-- lowest bit says whether it is locked. Each atomic operation is a function of the word.
pub mod Exclusion
use hosk.Base.{
  ℕ, ◌+◌, ◌-◌, ◌*◌, ◌/◌, ◌%◌, ◌^◌, Bool, true, false, Option, none, some, List, [], ◌∷◌, ◌==◌,
  if◌then◌else◌,
}

-- `lock & ~1`
unfoldable pub get_version : ℕ → ℕ
get_version lock = lock / 2 * 2

unfoldable pub try_lock_at_version : ℕ → ℕ → Bool × ℕ
try_lock_at_version lock version =
    if lock == version then (true, (version + 1) % 2 ^ 32) else (false, lock)

-- The tries of spinlock: the words that the read and the compare-and-swap of each of them meet. The
-- result is the word after the try that succeeds.
unfoldable pub spinlock : List (ℕ × ℕ) → Option ℕ
unfolding get_version try_lock_at_version
spinlock [] = none
spinlock ((seen, lock) ∷ tries) =
    let (done, lock') = try_lock_at_version lock (get_version seen) in
    let rest = spinlock tries in if done then some lock' else rest

unfoldable pub unlock_and_increment_version : ℕ → ℕ
unlock_and_increment_version lock = (lock + 1) % 2 ^ 32

unfoldable pub unlock_increment_and_get_version : ℕ → ℕ × ℕ
unfolding get_version
unlock_increment_and_get_version lock = ((get_version lock + 2) % 2 ^ 32, (lock + 1) % 2 ^ 32)

-- `atomic_fetch_sub(lock, 1)`
unfoldable pub unlock_without_increment_version : ℕ → ℕ
unlock_without_increment_version lock = (lock + (2 ^ 32 - 1)) % 2 ^ 32
