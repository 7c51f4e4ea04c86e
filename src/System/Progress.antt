-- ===== src/System/Progress.antt =====
-- Whatever the threads have done and in whatever order, each can go on.
use hosk.System.Reached.{Steps-IsSound}
use hosk.Workload.Iteration.{after_round}
use hosk.Background.{update_index_layer}
use hosk.Background.Rows.{rooms_for}
use hosk.Base.{ℕ, ◌+◌, ◌≤◌, ◌<◌, ◌≡◌, ◌≢◌, some, List}
use hosk.Enclave.{Ptr, Op, Enclave, opbuffer_remove}
use hosk.Skiplist.{Heap, ok}
use hosk.Operation.{Request}
use hosk.Operation.Set.{KeySet, set_all}
use hosk.Workload.{AppParam, choose}
use hosk.System.{
  State, heap_of, Limits, Steps, Memory, Supplies, dels_of, iterate, Allocates,
  update_intermediate_layer, Dels, Rooms, HasRoom, Stays,
}
use hosk.Sweep.{reset_index}
use hosk.System.Sound.{IsSound}
use hosk.System.Rounds.{work-done}
use hosk.System.Pieces.{publish-done, update-done, reset-done}

module _ {Seed : Type 0} (rand_range_re : ℕ → Seed → ℕ × Seed) (params : AppParam)
    (malloc : Heap → Ptr) (mem : Memory) (lim : Limits) where
  -- What the threads of a zone come to next: no fault, no failed assertion, no want of fuel.
  pub record GoesOn (set : KeySet) (s : State Seed) (i : ℕ) : Type 0 where
    pub works :
        let z = s.zones i in
        let c = choose rand_range_re params z.loop in
        c.key ≢ 0
        → c.key < lim.bound
        → Supplies malloc (heap_of s.nodes z)
        → (h : Heap) × (p : Ptr) × (iterate rand_range_re params malloc lim.fuel z.enclave.sentinel
              z.loop z.enclave
              (heap_of s.nodes z)
            ≡ ok (after_round rand_range_re params c z.enclave (set c.key) p) h)
    pub publishes :
        let z = s.zones i in
        (job : Op) (e : Enclave)
        → opbuffer_remove z.enclave ≡ (some job, e)
        → Allocates mem (heap_of s.nodes z)
        → (h : Heap) × (update_intermediate_layer mem lim.fuel z.enclave.sentinel job
              (heap_of s.nodes z)
            ≡ ok tt h)
    pub updates :
        let z = s.zones i in
        (room : ℕ)
        → lim.bound + rooms_for lim.high lim.bound + 2 ≤ room
        → Rooms mem room (heap_of s.nodes z)
        → Stays mem lim z.enclave (heap_of s.nodes z)
        → (h : Heap) × (new : Ptr) × (d : Dels) × (update_index_layer mem lim.fuel
              z.enclave.sentinel
              (dels_of z.enclave)
              (heap_of s.nodes z)
            ≡ ok (new, d) h)
    pub resets :
        let z = s.zones i in
        HasRoom mem (heap_of s.nodes z)
        → (h : Heap) × (new : Ptr) × (reset_index mem lim.fuel z.enclave.sentinel
              (heap_of s.nodes z)
            ≡ ok new h)

  IsSound-GoesOn :
      (set : KeySet) (s : State Seed) (i : ℕ)
      → i < lim.count
      → IsSound lim.bound lim.high lim.count set s
      → GoesOn set s i
  IsSound-GoesOn set s i lt sound =
      let z = s.zones i in
      let zone = sound.zone i lt in
      record {
        works = λ nz small supply.
            let (h, p, run, _, _, _, _, _, _) =
              work-done rand_range_re params malloc mem lim s.nodes z zone set sound.set_is nz small
                supply in
            (h, p, run);
        publishes = λ job e is supply.
            let (h, run, _, _, _) =
              publish-done rand_range_re params malloc mem lim s.nodes z zone job e is supply in
            (h, run);
        updates = λ room budget rooms stays.
            let (new, d, h, run, _, _, _, _) =
              update-done rand_range_re params malloc mem lim s.nodes z zone room budget rooms
                stays in
            (h, new, d, run);
        resets = λ room.
            let (h, new, run, _, _) =
              reset-done rand_range_re params malloc mem lim s.nodes z zone room in
            (h, new, run);
      }

  -- From a state in which every enclave's layers fit together over one data layer that represents a
  -- set of keys, along any steps of the threads of all enclaves, in any order, where a step is a whole
  -- round of an application with a nonzero key below the bound, the publishing of one operation, a whole
  -- pass of update_index_layer in which the counters do not ask for a lower index and after which the
  -- index is within the limit, or a reset of the index, each with what malloc or the allocator must
  -- supply: the layers of every enclave still fit together, every operation in an array is one
  -- that the helper can publish, and the data layer represents the set after the operations of all
  -- applications, in the order of their rounds. From there, on the same conditions, every such piece of
  -- work comes to an end without a fault, a failed assertion or a want of fuel: a round with the result
  -- of its operation on that set, the publishing of the operation that the array gives, a pass of
  -- update_index_layer, and a reset. There is fuel for the keys and for the index, and the limit of the
  -- index is at least two levels lower than MAX_LEVELS.
  pub Steps-GoesOn :
      (s t : State Seed) (rs : List Request) (set : KeySet)
      → IsSound lim.bound lim.high lim.count set s
      → Steps rand_range_re params malloc mem lim s rs t
      → IsSound lim.bound lim.high lim.count (set_all rs set) t
        × ((i : ℕ) → i < lim.count → GoesOn (set_all rs set) t i)
  Steps-GoesOn s t rs set sound steps =
      let reached = Steps-IsSound rand_range_re params malloc mem lim s t rs set steps sound in
      (reached, λ i lt. IsSound-GoesOn (set_all rs set) t i lt reached)
