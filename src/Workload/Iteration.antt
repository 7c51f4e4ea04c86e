-- ===== src/Workload/Iteration.antt =====
-- One round of the application thread's loop: its operation and what it passes on to the helper.
use hosk.Base.{
  ℕ, ◌≡◌, refl, ◌≢◌, Bool, true, false, not, ◌&&◌, Option, none, some, arith, if◌then◌else◌,
}
use hosk.Enclave.{Ptr, Enclave, opbuffer_insert}
use hosk.Skiplist.{Heap, ok, null}
use hosk.Application.{OpType, contains, delete, insert}
use hosk.Application.Insert.{Supplies}
use hosk.Index.{IsSkiplist}
use hosk.Operation.Set.{KeySet, Represents, set_op, result_of}
use hosk.Operation.Simulation.{Told, Touches}
use hosk.Operation.Refinement.{Fits, do_operation-Simulates}
use hosk.Workload.{AppParam, Loop, choose, settle, iterate, is_zero, reads_only}
use hosk.Helper.Publish.{IsJob}

-- Whether an operation changes a set that has the key, or has it not.
abbrev pub changes : OpType → Bool → Bool
changes contains b = false
changes delete b = b
changes insert b = not b

changes-lem :
    (o : OpType) (b : Bool) → not (is_zero (result_of o b)) && not (reads_only o) ≡ changes o b
changes-lem contains b = ground arith
changes-lem delete b = ground arith
changes-lem insert b = ground arith

if-pure :
    {A : Type 0} (b : Bool) (x y : A) (h : Heap)
    → (if b then ok x else ok y) h ≡ ok (if b then x else y) h
if-pure true x y h = refl
if-pure false x y h = refl

-- What is stored through `pnode` makes an operation that the helper can publish, and it is an insert
-- just if a key was added.
Told-IsJob :
    (o : OpType) (b : Bool) (key : ℕ) (p : Ptr) (h : Heap)
    → Told o b key null p h
    → IsJob h (record { key = key; node = p })
      × ((o ≡ insert → b ≡ false → p ≢ null) × (o ≡ delete → p ≡ null))
Told-IsJob contains b key p h t = (λ ne. absurd (ne t), (λ e. absurd (ground arith), λ e. t))
Told-IsJob delete b key p h t = (λ ne. absurd (ne t), (λ e. absurd (ground arith), λ e. t))
Told-IsJob insert true key p h t = (λ ne. absurd (ne t), (λ _ e. absurd (ground arith), λ e. t))
Told-IsJob insert false key p h (live, is) = (λ _. is, (λ _ _. live, λ e. absurd (ground arith)))

module _ {Seed : Type 0} (rand_range_re : ℕ → Seed → ℕ × Seed) (params : AppParam) where
  -- How a round leaves the loop, given what the set had and what was stored through `pnode`.
  abbrev pub after_round : Loop Seed → Enclave → Bool → Ptr → Option (Loop Seed × Enclave)
  after_round c e b p =
      let l = settle rand_range_re params (result_of c.otype b) c in
      let (done, e') = opbuffer_insert c.key p e in
      if changes c.otype b then (if done then some (l, e') else none) else some (l, e)

  -- A round on a skip list that represents a set of keys, where the chosen key is a nonzero 32-bit
  -- word with more fuel than the index is high and the key is large, and malloc supplies a node: it
  -- ends without a fault; the skip list then represents the set after the chosen operation; the
  -- result of that operation on the set is counted; if the set changed, the operation is put into
  -- the enclave's array, with its new node for an insert and `NULL` for a removal, or the program
  -- exits where the array is full; if the set did not change, the array is left alone; the data nodes
  -- keep their keys, and the upper layers stay as they are.
  pub iterate-round :
      (malloc : Heap → Ptr) {height : Ptr → ℕ} {sentinel : Ptr} (h : Heap) (s : KeySet) (fuel : ℕ)
      (l : Loop Seed) (e : Enclave)
      → let c = choose rand_range_re params l in
        IsSkiplist height sentinel h
        → Represents s h
        → Fits height sentinel fuel (record { op = c.otype; key = c.key })
        → Supplies malloc h
        → (h' : Heap) × (p : Ptr) × (iterate rand_range_re params malloc fuel sentinel l e h
            ≡ ok (after_round c e (s c.key) p) h')
          × IsSkiplist height sentinel h'
          × Represents (set_op c.otype c.key s) h'
          × IsJob h' (record { key = c.key; node = p })
          × (c.otype ≡ insert → s c.key ≡ false → p ≢ null)
          × (c.otype ≡ delete → p ≡ null)
          × Touches h h'
  unfolding iterate
  iterate-round malloc h s fuel l e whole same fits supply =
      let c = choose rand_range_re params l in
      let (h', p, run, whole', same', told, touches) =
        do_operation-Simulates malloc h s fuel c.key c.otype null whole same fits supply in
      let (job, (is_insert, is_delete)) = Told-IsJob c.otype (s c.key) c.key p h' told in
      (
        h',
        p,
        rw (run, changes-lem c.otype (s c.key)) (if-pure (changes c.otype (s c.key)) _ _ h'),
        whole',
        same',
        job,
        is_insert,
        is_delete,
        touches,
      )
