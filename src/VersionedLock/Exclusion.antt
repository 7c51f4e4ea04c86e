-- ===== src/VersionedLock/Exclusion.antt =====
-- Threads that follow the lock's protocol: at most one holds it, and versions go up by two.
use mathlib.Core.Path.{subst, sym}
use hosk.Base.{
  ℕ, ◌+◌, ◌-◌, ◌*◌, ◌/◌, ◌%◌, ◌^◌, ◌<◌, ◌≡◌, ◌≢◌, refl, ◌⊎◌, inl, inr, true, Option, none, some,
  List, [], ◌∷◌, ==_true, ◌++◌, ℕ_discrete, if◌then◌else◌, arith,
}
use hosk.VersionedLock.{
  get_version, try_lock_at_version, spinlock, unlock_and_increment_version,
  unlock_increment_and_get_version, unlock_without_increment_version,
}

-- The word and the thread that has locked it.
pub record State : Type 0 where
  pub lock : ℕ
  pub holder : Option ℕ

-- A try by thread `t` at the version that it saw in the word `seen`.
abbrev pub after_try : ℕ → ℕ → State → State
after_try t seen s =
    let (got, lock) = try_lock_at_version s.lock (get_version seen) in
    record { lock = lock; holder = if got then some t else s.holder }

-- One atomic step of a thread: a try at the version that it read from a word, and the three ways to
-- unlock.
pub data Step : State → State → Type 0 where
  try : (t seen : ℕ) (s : State) → Step s (after_try t seen s)
  increment :
      (t lock : ℕ)
      → Step
          (record { lock = lock; holder = some t })
          (record { lock = unlock_and_increment_version lock; holder = none })
  increment_and_get :
      (t lock : ℕ)
      → Step
          (record { lock = lock; holder = some t })
          (record { lock = (unlock_increment_and_get_version lock).1; holder = none })
  keep :
      (t lock : ℕ)
      → Step
          (record { lock = lock; holder = some t })
          (record { lock = unlock_without_increment_version lock; holder = none })

pub data Steps : State → State → Type 0 where
  done : (s : State) → Steps s s
  more : (s t u : State) → Step s t → Steps t u → Steps s u

-- The word is odd just while a thread holds the lock.
abbrev pub IsSound : State → Type 0
IsSound s =
    (s.lock < 2 ^ 32)
    × (((s.holder ≡ none) × (s.lock % 2 ≡ 0)) ⊎ ((t : ℕ) × (s.holder ≡ some t) × (s.lock % 2 ≡ 1)))

abbrev IsHeld : ℕ → Type 0
IsHeld lock = (lock < 2 ^ 32) × (lock % 2 ≡ 1)

held : (t lock : ℕ) → IsSound (record { lock = lock; holder = some t }) → IsHeld lock
held t lock sound = ground arith

released :
    (lock : ℕ) → lock < 2 ^ 32 → lock % 2 ≡ 0 → IsSound (record { lock = lock; holder = none })
released lock small even = (small, inl (refl, even))

-- A try at the version of a word takes the lock if that is the word of the state, which then is
-- even, and changes nothing if not.
try-cases :
    (t seen : ℕ) (s : State)
    → s.lock < 2 ^ 32
    → ((after_try t seen s ≡ record { lock = s.lock + 1; holder = some t })
        × (s.lock % 2 ≡ 0)
        × (s.lock ≡ get_version seen))
      ⊎ ((after_try t seen s ≡ s) × (s.lock ≢ get_version seen))
unfolding get_version try_lock_at_version
try-cases t seen s small = elim (ℕ_discrete s.lock (seen / 2 * 2)) [
  | yes z ↦ inl (ground arith, omega arith, z)
  | no ne ↦ inr (ground arith, ne)
]

Step-IsSound : (s t : State) → Step s t → IsSound s → IsSound t
unfolding unlock_and_increment_version unlock_increment_and_get_version
    unlock_without_increment_version
Step-IsSound _ _ (try t seen s) sound = elim (try-cases t seen s sound.0) [
  | inl (e, even, _) ↦ subst IsSound (sym e) (omega arith, inr (t, refl, omega arith))
  | inr (e, _) ↦ subst IsSound (sym e) sound
]
Step-IsSound _ _ (increment t lock) sound =
    let (small, odd) = held t lock sound in
    released ((lock + 1) % 2 ^ 32) (omega arith) (omega arith)
Step-IsSound _ _ (increment_and_get t lock) sound =
    let (small, odd) = held t lock sound in
    released ((lock + 1) % 2 ^ 32) (omega arith) (omega arith)
Step-IsSound _ _ (keep t lock) sound =
    let (small, odd) = held t lock sound in
    released ((lock + (2 ^ 32 - 1)) % 2 ^ 32) (omega arith) (omega arith)

Steps-IsSound : (s t : State) → Steps s t → IsSound s → IsSound t
Steps-IsSound _ _ (done s) sound = sound
Steps-IsSound _ _ (more s t u now later) sound =
    Steps-IsSound t u later (Step-IsSound s t now sound)

-- From an unlocked word, along any interleaving of tries and of unlocks by the holder, the word is
-- odd just while a thread holds the lock, and no try changes anything while one does.
pub try_lock-excludes :
    (lock : ℕ) (s : State)
    → lock < 2 ^ 32
    → lock % 2 ≡ 0
    → Steps (record { lock = lock; holder = none }) s
    → IsSound s × ((t u seen : ℕ) → s.holder ≡ some t → after_try u seen s ≡ s)
try_lock-excludes lock s small even steps =
    let sound = Steps-IsSound _ s steps (released lock small even) in
    (
      sound,
      λ t u seen holds. elim (try-cases u seen s sound.0) [
        | inl (_, free, _) ↦ absurd (ground arith)
        | inr (e, _) ↦ e
      ],
    )

-- An unlocked word that a try at its version has locked: unlocking with an increment leaves the
-- version after it, which is also what unlock_increment_and_get_version returns, round 2 ^ 32;
-- unlocking without one restores the word.
pub unlock-versions :
    (lock : ℕ)
    → lock < 2 ^ 32
    → lock % 2 ≡ 0
    → let (got, w) = try_lock_at_version lock (get_version lock) in
      (got ≡ true)
      × (unlock_and_increment_version w ≡ (lock + 2) % 2 ^ 32)
      × (unlock_increment_and_get_version w ≡ ((lock + 2) % 2 ^ 32, (lock + 2) % 2 ^ 32))
      × (unlock_without_increment_version w ≡ lock)
unfolding get_version try_lock_at_version unlock_and_increment_version
    unlock_increment_and_get_version unlock_without_increment_version
unlock-versions lock small even =
    let e : lock / 2 * 2 ≡ lock = omega arith in
    rw (e, ==_true lock lock refl) (refl, omega arith, ground arith, omega arith)

-- A try of spinlock whose read and compare-and-swap both meet the word unlocked ends it, or an earlier
-- one does, and the word that it leaves is odd.
pub spinlock-ends :
    (before after : List (ℕ × ℕ)) (lock : ℕ)
    → lock < 2 ^ 32
    → lock % 2 ≡ 0
    → (w : ℕ) × (spinlock (before ++ (lock, lock) ∷ after) ≡ some w) × (w % 2 ≡ 1)
unfolding spinlock get_version try_lock_at_version
spinlock-ends [] after lock small even =
    let e : lock / 2 * 2 ≡ lock = omega arith in (lock + 1, ground arith, omega arith)
spinlock-ends ((seen, word) ∷ before) after lock small even =
    let (w, e, odd) = spinlock-ends before after lock small even in
    elim (ℕ_discrete word (seen / 2 * 2)) [
      | yes z ↦ ((word + 1) % 2 ^ 32, ground arith, omega arith)
      | no ne ↦ (w, ground arith, odd)
    ]
