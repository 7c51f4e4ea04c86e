-- ===== src/Tests/Supply.antt =====
-- A memory of a few addresses for index nodes, and the room that it has.
use hosk.Base.{
  ℕ, zero, suc, ◌+◌, ◌*◌, ◌≤◌, ◌<◌, ◌≡◌, ◌≢◌, refl, none, some, arith, Option, Option-cases, ◌⊎◌,
  inl, inr, ℕ_discrete, ◌⊎◌, false, ◌∙◌,
}
use hosk.Enclave.{Ptr}
use hosk.Skiplist.{Inode, Heap, null}
use hosk.Skiplist.Upper.{Memory}
use hosk.Levels.Raise.{Within, used_at, Rooms}

abbrev at : ℕ → Ptr
at k = 3000 + 32 * k

-- The first free one of `n` addresses.
abbrev or_else : Option Inode → ℕ → ℕ → ℕ
or_else none a b = a
or_else (some _) a b = b

abbrev pick : ℕ → Heap → Ptr
pick zero h = null
pick (suc k) h = or_else (h.inodes (at k)) (at k) (pick k h)

abbrev pub supply : ℕ → Memory
supply n = record { malloc = λ h. 0; nalloc = pick n; base_malloc = false; buf_old = λ h. 0 }

-- How many of them are free.
abbrev free : ℕ → Heap → ℕ
free zero h = 0
free (suc k) h = or_else (h.inodes (at k)) (suc (free k h)) (free k h)

module _ (k : ℕ) (h : Heap) where
  pick-some : (i : Inode) → h.inodes (at k) ≡ some i → pick (suc k) h ≡ pick k h
  pick-some i e = rw e refl

  pick-none : h.inodes (at k) ≡ none → pick (suc k) h ≡ at k
  pick-none e = rw e refl

  free-some : (i : Inode) → h.inodes (at k) ≡ some i → free (suc k) h ≡ free k h
  free-some i e = rw e refl

  free-none : h.inodes (at k) ≡ none → free (suc k) h ≡ suc (free k h)
  free-none e = rw e refl

  seen : (h.inodes (at k) ≡ none) ⊎ ((i : Inode) × (h.inodes (at k) ≡ some i))
  seen = Option-cases (h.inodes (at k))

free-Within : (k : ℕ) (old h : Heap) → Within old h → free k old ≤ free k h
free-Within zero old h within = omega arith
free-Within (suc k) old h within =
    let rest = free-Within k old h within in
    elim (seen k old) [
      | inl e ↦ omega (arith, free-none k old e, free-none k h (within (at k) e))
      | inr (i, e) ↦ elim (seen k h) [
        | inl e' ↦ omega (arith, free-some k old i e, free-none k h e')
        | inr (i', e') ↦ omega (arith, free-some k old i e, free-some k h i' e')
      ]
    ]

used_other : (old : Heap) (q : Ptr) (a : Ptr) → q ≢ a → (used_at old q).inodes a ≡ old.inodes a
used_other old q a ne = ground (arith, ne)

-- An address that is not among them.
free-beyond : (k : ℕ) (old : Heap) (q : Ptr) → at k ≤ q → free k (used_at old q) ≡ free k old
free-beyond zero old q le = refl
free-beyond (suc k) old q le =
    rw (used_other old q (at k) (omega arith), free-beyond k old q (omega arith)) refl

free-used : (k : ℕ) (old : Heap) (q : Ptr) → free k old ≤ suc (free k (used_at old q))
free-used zero old q = omega arith
free-used (suc k) old q =
    let rest = free-used k old q in
    elim (ℕ_discrete q (at k)) [
      | yes z ↦
          let same = free-beyond k old q (omega arith) in
          elim (seen k old) [
            | inl e ↦ elim (seen k (used_at old q)) [
              | inl e' ↦ omega (arith, free-none k old e, free-none k (used_at old q) e')
              | inr (i, e') ↦ omega (arith, free-none k old e, free-some k (used_at old q) i e')
            ]
            | inr (i, e) ↦ elim (seen k (used_at old q)) [
              | inl e' ↦ omega (arith, free-some k old i e, free-none k (used_at old q) e')
              | inr (i', e') ↦ omega (arith, free-some k old i e, free-some k (used_at old q) i' e')
            ]
          ]
      | no ne ↦ elim (seen k old) [
        | inl e ↦
            omega (
              arith,
              free-none k old e,
              free-none k (used_at old q) (used_other old q (at k) ne ∙ e),
            )
        | inr (i, e) ↦ omega (
          arith,
          free-some k old i e,
          free-some k (used_at old q) i (used_other old q (at k) ne ∙ e),
        )
      ]
    ]

pick-free : (k : ℕ) (h : Heap) → 0 < free k h → (pick k h ≢ null) × (h.inodes (pick k h) ≡ none)
pick-free zero h lt = absurd (omega arith)
pick-free (suc k) h lt = elim (seen k h) [
  | inl e ↦ (rw (pick-none k h e) (omega arith), rw (pick-none k h e) e)
  | inr (i, e) ↦ rw (pick-some k h i e) (pick-free k h (omega (arith, free-some k h i e)))
]

-- There is room for as many nodes as addresses are free.
free-Rooms : (k n : ℕ) (h : Heap) → n ≤ free k h → Rooms (supply k) n h
unfolding Rooms
free-Rooms k zero h le = tt
free-Rooms k (suc n) h le = λ x within.
    let more = free-Within k h x within in
    let (live, unused) = pick-free k x (omega arith) in
    (live, unused, free-Rooms k n (used_at h (pick k x)) (omega (arith, free-used k h (pick k x))))

all_free : (k : ℕ) (h : Heap) → ((i : ℕ) → i < k → h.inodes (at i) ≡ none) → k ≤ free k h
all_free zero h none_used = omega arith
all_free (suc k) h none_used =
    let rest = all_free k h (λ i lt. none_used i (omega arith)) in
    omega (arith, free-none k h (none_used k (omega arith)))

pub supply-Rooms :
    (k : ℕ) (h : Heap) → ((i : ℕ) → i < k → h.inodes (at i) ≡ none) → Rooms (supply k) k h
supply-Rooms k h none_used = free-Rooms k k h (all_free k h none_used)
