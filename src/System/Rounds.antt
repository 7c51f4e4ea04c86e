-- ===== src/System/Rounds.antt =====
-- A round of an application on an enclave that is sound.
use mathlib.Core.Path.{ap, subst}
use hosk.Base.{
  ℕ, ◌+◌, ◌%◌, ◌<◌, ◌≡◌, refl, sym, ◌∙◌, ◌≢◌, ◌⊎◌, inl, inr, true, false, some, arith, ℕ_discrete,
  Bool-cases, Bool, get_or, set, get_or-set_self, get_or-set_ne, length, ◌==◌,
}
use hosk.Enclave.{Ptr, Op, no_op, Enclave, opbuffer_insert}
use hosk.Enclave.OpBuffer.{IsValid, opbuffer_insert-IsValid, insert}
use hosk.Skiplist.{Node, Store, Heap, ok, null}
use hosk.Application.Layer.{KeepsKeys}
use hosk.Operation.Set.{KeySet, Represents, set_op}
use hosk.Sweep.Trav.{Below}
use hosk.Workload.{AppParam, Loop, choose, iterate}
use hosk.Workload.Iteration.{after_round, changes, iterate-round}
use hosk.Application.{delete, insert}
use hosk.System.{Zone, heap_of, zone_of, Limits, Memory, Supplies}
use hosk.System.Sound.{IsGood, IsGood-keeps, IsSoundZone}

-- A round leaves the enclave alone, or puts an operation into its array.
pub after_round-cases :
    {Seed : Type 0} (rand_range_re : ℕ → Seed → ℕ × Seed) (params : AppParam) (c l : Loop Seed)
    (e e' : Enclave) (b : Bool) (p : Ptr)
    → after_round rand_range_re params c e b p ≡ some (l, e')
    → ((changes c.otype b ≡ false) × (e' ≡ e))
      ⊎ ((changes c.otype b ≡ true)
          × ((opbuffer_insert c.key p e).0 ≡ true)
          × (e' ≡ (opbuffer_insert c.key p e).1))
after_round-cases rand_range_re params c l e e' b p is = elim (Bool-cases (changes c.otype b)) [
  | inl t ↦ elim (Bool-cases (opbuffer_insert c.key p e).0) [
    | inl d ↦ inr (t, d, ground arith)
    | inr f ↦ absurd (ground arith)
  ]
  | inr f ↦ inl (f, ground arith)
]

-- What opbuffer_insert and opbuffer_remove do to an enclave.
pub insert_sentinel :
    (key : ℕ) (p : Ptr) (e : Enclave) → (opbuffer_insert key p e).1.sentinel ≡ e.sentinel
unfolding opbuffer_insert
insert_sentinel key p e = ground arith

insert_jobs :
    (key : ℕ) (p : Ptr) (e : Enclave) (P : Op → Type 0)
    → P (record { key = key; node = p })
    → e.app_idx < length e.opbuffer
    → ((k : ℕ) → P (get_or e.opbuffer k no_op))
    → (k : ℕ) → P (get_or (opbuffer_insert key p e).1.opbuffer k no_op)
unfolding opbuffer_insert
insert_jobs key p e P new inside old k =
    elim (Bool-cases ((e.app_idx + 1) % e.buf_size == e.hlp_idx)) [
      | inl full ↦ rw full (old k)
      | inr room ↦ rw room (elim (ℕ_discrete k e.app_idx) [
        | yes z ↦
            subst P
              (sym (
                ap (λ i. get_or (set e.opbuffer e.app_idx (record { key = key; node = p })) i no_op)
                  z
                ∙ get_or-set_self e.opbuffer e.app_idx (record { key = key; node = p }) no_op
                    inside))
              new
        | no ne ↦
            subst P
              (sym (
                get_or-set_ne e.opbuffer e.app_idx k (record { key = key; node = p }) no_op
                  λ w. ne (sym w)))
              (old k)
      ])
    ]

module _ {Seed : Type 0} (rand_range_re : ℕ → Seed → ℕ × Seed) (params : AppParam)
    (malloc : Heap → Ptr) (mem : Memory) (lim : Limits) (nodes : Store Node) (z : Zone Seed)
    (sound : IsSoundZone lim.bound lim.high nodes z) where
  abbrev heap : Heap
  heap = heap_of nodes z

  -- A round of the application.
  pub work-done :
      (set : KeySet)
      → Represents set heap
      → let c = choose rand_range_re params z.loop in
        c.key ≢ 0
        → c.key < lim.bound
        → Supplies malloc heap
        → (h : Heap) × (p : Ptr) × (iterate rand_range_re params malloc lim.fuel z.enclave.sentinel
              z.loop z.enclave heap
            ≡ ok (after_round rand_range_re params c z.enclave (set c.key) p) h)
          × Represents (set_op c.otype c.key set) h
          × KeepsKeys nodes h.nodes
          × (h ≡ record heap { nodes = h.nodes })
          × (c.otype ≡ insert → set c.key ≡ false → p ≢ null)
          × (c.otype ≡ delete → p ≡ null)
          × ((l : Loop Seed) (e : Enclave)
              → after_round rand_range_re params c z.enclave (set c.key) p ≡ some (l, e)
              → IsSoundZone lim.bound lim.high h.nodes (zone_of e l h))
  work-done set same nz small supply =
      let c = choose rand_range_re params z.loop in
      let (h, p, run, whole, same', job, is_insert, is_delete, (keeps, only)) =
        iterate-round rand_range_re params malloc heap set lim.fuel z.loop z.enclave sound.whole
          same (nz, omega (arith, lim.word), omega (arith, sound.low, lim.enough)) supply in
      let good : (k : ℕ) → IsGood lim.bound h.nodes (get_or z.enclave.opbuffer k no_op) =
        (λ k. IsGood-keeps (get_or z.enclave.opbuffer k no_op) keeps (sound.jobs k)) in
      let new =
        insert_jobs c.key p z.enclave (IsGood lim.bound h.nodes) (job, small)
          (omega (arith, sound.valid.storage, sound.valid.app_in)) good in
      let below : Below lim.bound h = subst (Below lim.bound) (sym only) sound.below in
      let make : (e : Enclave) (l : Loop Seed)
          → e.sentinel ≡ z.enclave.sentinel
          → IsValid e
          → ((k : ℕ) → IsGood lim.bound h.nodes (get_or e.opbuffer k no_op))
          → IsSoundZone lim.bound lim.high h.nodes (zone_of e l h) =
        (λ e l eq valid jobs. record {
          height = sound.height;
          whole = rw eq whole;
          low = rw eq sound.low;
          valid = valid;
          jobs = jobs;
          below = below;
        }) in
      (
        h,
        p,
        run,
        same',
        keeps,
        only,
        is_insert,
        is_delete,
        λ l e is. elim (after_round-cases rand_range_re params c l z.enclave e (set c.key) p is) [
          | inl (_, eq) ↦
              subst (λ x. IsSoundZone lim.bound lim.high h.nodes (zone_of x l h)) (sym eq)
                (make z.enclave l refl sound.valid good)
          | inr (_, _, eq) ↦
              subst (λ x. IsSoundZone lim.bound lim.high h.nodes (zone_of x l h)) (sym eq)
                (make (opbuffer_insert c.key p z.enclave).1 l (insert_sentinel c.key p z.enclave)
                  (opbuffer_insert-IsValid c.key p sound.valid) new)
        ],
      )
