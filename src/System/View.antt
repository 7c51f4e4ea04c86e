-- ===== src/System/View.antt =====
-- The intermediate layer as a late view of the set, for one enclave: the operations that wait in its
-- array are just what it lacks.
use hosk.Base.{
  ℕ, ◌≡◌, refl, ◌≢◌, ◌⊎◌, ◌↔◌, inl, inr, true, false, arith, ℕ_discrete, List, [], ◌∷◌, ◌++◌,
  ==_true, ==_false,
}
use hosk.Enclave.{Ptr, Op, Enclave}
use hosk.Skiplist.{Heap, null}
use hosk.Application.{OpType, contains, delete, insert}
use hosk.Helper.Update.{Tracks, Sets}
use hosk.Helper.Publish.{Outcome}
use hosk.Operation.Set.{KeySet, set_op}
use hosk.Workload.Iteration.{changes}
use hosk.System.Pending.{waiting, IsBehind}

-- The keys that a layer shows, and what it shows once an operation is published.
abbrev pub Shown : Type 1
Shown = ℕ → Type 0

abbrev pub show : Op → Shown → Shown
show job t j = ((j ≡ job.key) × (job.node ≢ null)) ⊎ ((j ≢ job.key) × t j)

abbrev pub show_all : List Op → Shown → Shown
show_all [] t = t
show_all (job ∷ jobs) t = show_all jobs (show job t)

pub show_all-snoc :
    (jobs : List Op) (job : Op) (t : Shown)
    → show_all (jobs ++ job ∷ []) t ≡ show job (show_all jobs t)
show_all-snoc [] job t = refl
show_all-snoc (x ∷ jobs) job t = show_all-snoc jobs job (show x t)

pub show_all-same :
    (jobs : List Op) (t u : Shown)
    → ((j : ℕ) → t j ↔ u j)
    → (j : ℕ) → show_all jobs t j ↔ show_all jobs u j
show_all-same [] t u same = same
show_all-same (job ∷ jobs) t u same = show_all-same jobs (show job t) (show job u) λ j. (
  elim [ inl x ↦ inl x | inr (ne, x) ↦ inr (ne, (same j).0 x) ],
  elim [ inl x ↦ inl x | inr (ne, x) ↦ inr (ne, (same j).1 x) ],
)

-- The unmarked keys.
abbrev pub unmarked : Heap → Shown
unmarked h j = Tracks h j false

-- What the layer shows with what waits in the array is the set, but for the sentinel's key.
pub record IsCurrent (set : KeySet) (h : Heap) (e : Enclave) : Type 0 where
  pub behind : IsBehind e.buf_size e.hlp_idx
  pub agrees : (j : ℕ) → j ≢ 0 → show_all (waiting e) (unmarked h) j ↔ (set j ≡ true)

-- An operation that changes nothing leaves the set.
pub no_change :
    (o : OpType) (key : ℕ) (set : KeySet) (j : ℕ)
    → changes o (set key) ≡ false
    → set_op o key set j ≡ set j
no_change contains key set j same = refl
no_change delete key set j same = ground arith
no_change insert key set j same = ground arith

-- One that changes it is what its entry in the array shows.
pub shows :
    (o : OpType) (key : ℕ) (p : Ptr) (set : KeySet) (j : ℕ) (T : Type 0)
    → changes o (set key) ≡ true
    → (o ≡ insert → set key ≡ false → p ≢ null)
    → (o ≡ delete → p ≡ null)
    → T ↔ (set j ≡ true)
    → (((j ≡ key) × (p ≢ null)) ⊎ ((j ≢ key) × T)) ↔ (set_op o key set j ≡ true)
shows contains key p set j T t ins del same = absurd (ground arith)
shows delete key p set j T t ins del (to, from) = (
  elim [ inl (z, ne) ↦ absurd (ne (del refl)) | inr (ne, x) ↦ rw (==_false j key ne) (to x) ],
  λ y. elim (ℕ_discrete j key) [
    | yes z ↦ absurd (ground arith)
    | no ne ↦ inr (ne, from (ground arith))
  ],
)
shows insert key p set j T t ins del (to, from) = (
  elim [ inl (z, ne) ↦ rw (==_true j key z) refl | inr (ne, x) ↦ rw (==_false j key ne) (to x) ],
  λ y. elim (ℕ_discrete j key) [
    | yes z ↦ inl (z, ins refl (ground arith))
    | no ne ↦ inr (ne, from (ground arith))
  ],
)

-- What publishing an operation does to the unmarked keys.
pub publish-unmarked :
    (h h' : Heap) (job : Op)
    → Sets h h' job.key (Outcome h job)
    → (j : ℕ) → unmarked h' j ↔ show job (unmarked h) j
publish-unmarked h h' job sets j = (
  λ x. elim ((sets j false).0 x) [
    | inl (z, inl (ne, _)) ↦ inl (z, ne)
    | inl (z, inr (_, e, _)) ↦ absurd (ground arith)
    | inr r ↦ inr r
  ],
  elim [
    | inl (z, ne) ↦ (sets j false).1 (inl (z, inl (ne, refl)))
    | inr r ↦ (sets j false).1 (inr r)
  ],
)
