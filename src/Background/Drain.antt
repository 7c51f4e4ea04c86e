-- ===== src/Background/Drain.antt =====
-- The helper takes the operations out of the array in their order, and publishes each.
use hosk.Base.{
  ℕ, zero, suc, ◌+◌, ◌-◌, ◌%◌, ◌<◌, ◌≡◌, ◌≢◌, ◌⊎◌, ◌↔◌, Bool, true, false, none, List, [], ◌∷◌,
  get_or,
}
use hosk.Enclave.{Ptr, Op, no_op, Enclave, opbuffer_remove}
use hosk.Skiplist.{Heap, Run, null, ok}
use hosk.Skiplist.Upper.{Memory}
use hosk.Index.{IsSkiplist}
use hosk.Helper.{update_intermediate_layer}
use hosk.Helper.Update.{Tracks}
use hosk.Helper.Publish.{IsJob, Allocates}

-- The operations that the helper takes: from its index on, all but the last two slots below the
-- application's index. Where the application's index has gone round the array and the helper's has
-- not, the difference that the source tests is negative, and it takes none.
abbrev pub slots : ℕ → List Op → ℕ → ℕ → List Op
slots size buffer i zero = []
slots size buffer i (suc n) = get_or buffer i no_op ∷ slots size buffer ((i + 1) % size) n

abbrev pub count : Enclave → ℕ
count e = e.app_idx - ((e.hlp_idx + 1) % e.buf_size + 1)

abbrev pub pending : Enclave → List Op
pending e = slots e.buf_size e.opbuffer e.hlp_idx (count e)

-- The keys and marks after a list of operations.
abbrev pub Marks : Type 1
Marks = ℕ → Bool → Type 0

abbrev pub publish : Op → Marks → Marks
publish job tracks j b =
    ((j ≡ job.key)
      × (((job.node ≢ null) × (b ≡ false))
          ⊎ ((job.node ≡ null) × (b ≡ true) × ((c : Bool) × tracks job.key c))))
    ⊎ ((j ≢ job.key) × tracks j b)

abbrev pub publish_all : List Op → Marks → Marks
publish_all [] tracks = tracks
publish_all (job ∷ jobs) tracks = publish_all jobs (publish job tracks)

-- Each operation is one that the helper can publish, with enough fuel.
abbrev pub AreJobs : ℕ → ℕ → Heap → List Op → Type 0
AreJobs fuel high h [] = Unit {0}
AreJobs fuel high h (job ∷ jobs) =
    IsJob h job × (high + job.key + 1 < fuel) × AreJobs fuel high h jobs

-- The allocator supplies an intermediate node whenever an operation begins.
abbrev pub Feeds : Memory → ℕ → Ptr → List Op → Heap → Type 0
Feeds mem fuel sentinel [] h = Unit {0}
Feeds mem fuel sentinel (job ∷ jobs) h =
    Allocates mem h
    × ((h' : Heap)
        → update_intermediate_layer mem fuel sentinel job h ≡ ok tt h'
        → Feeds mem fuel sentinel jobs h')

-- All of them are published, in their order, and the array gives no more.
abbrev pub Drains : (Ptr → ℕ) → Heap → Enclave → Run Enclave → Type 0
Drains height h e r =
    (h' : Heap) × (e' : Enclave) × (r ≡ ok e' h')
    × IsSkiplist height e.sentinel h'
    × (opbuffer_remove e' ≡ (none, e'))
    × (e' ≡ record e { hlp_idx = e'.hlp_idx })
    × (h' ≡ record h { mnodes = h'.mnodes })
    × ((j : ℕ) (b : Bool) → Tracks h' j b ↔ publish_all (pending e) (Tracks h) j b)
