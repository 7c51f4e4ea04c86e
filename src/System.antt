-- ===== src/System.antt =====
-- The threads of src/hosk/application.cpp and src/hosk/helper.cpp together: one data layer that all
-- enclaves share, and for each enclave its object, its own upper layers and the state of its
-- application thread. A step is a round of an application's loop or one piece of work of a helper,
-- whole and on its own; the steps of different threads come in any order.
pub mod Sound
pub mod View
pub mod Current
pub mod Pending
pub mod Pieces
pub mod Progress
pub mod Reached
pub mod Rounds
use hosk.Base.{
  ℕ, ◌+◌, ◌*◌, ◌^◌, ◌≤◌, ◌<◌, ◌≡◌, ◌≢◌, Option, none, some, List, [], ◌∷◌, ◌==◌, if◌then◌else◌,
  false, suc,
}
use hosk.Enclave.{Ptr, Op, Enclave, opbuffer_remove}
use hosk.Skiplist.{Node, Inode, Mnode, Store, Heap, ok, null}
use hosk.Skiplist.Upper.{Memory}
use hosk.Application.Insert.{Supplies}
use hosk.Operation.{Request}
use hosk.Workload.{AppParam, Loop, choose, iterate}
use hosk.Helper.{update_intermediate_layer}
use hosk.Helper.Publish.{Allocates}
use hosk.Sweep.{Dels, bg_trav_mnodes, reset_index}
use hosk.Sweep.Fresh.{HasRoom}
use hosk.Levels.Raise.{Rooms}
use hosk.Background.{max_levels, asks_lower, update_index_layer}
use hosk.Background.Rows.{rooms_for}

-- An enclave, its application's loop and its upper layers.
pub record Zone (Seed : Type 0) : Type 0 where
  pub enclave : Enclave
  pub loop : Loop Seed
  pub inodes : Store Inode
  pub mnodes : Store Mnode

pub record State (Seed : Type 0) : Type 0 where
  pub nodes : Store Node
  pub zones : ℕ → Zone Seed

-- The heap as an enclave's threads see it.
abbrev pub heap_of : {Seed : Type 0} → Store Node → Zone Seed → Heap
heap_of nodes z = record { nodes = nodes; inodes = z.inodes; mnodes = z.mnodes }

abbrev pub zone_of : {Seed : Type 0} → Enclave → Loop Seed → Heap → Zone Seed
zone_of e l h = record { enclave = e; loop = l; inodes = h.inodes; mnodes = h.mnodes }

-- The zone `i` after a step that leaves it the enclave `e`, the loop `l` and the heap `h`.
abbrev pub after : {Seed : Type 0} → State Seed → ℕ → Enclave → Loop Seed → Heap → State Seed
after s i e l h = record {
  nodes = h.nodes;
  zones = λ w. if i == w then zone_of e l h else s.zones w;
}

abbrev pub dels_of : Enclave → Dels
dels_of e = record { non_del = e.non_del; tall_del = e.tall_del }

-- What is the same for the whole run: keys are below `bound`, no index is higher than `high`, and
-- there is enough fuel for both.
pub record Limits : Type 0 where
  pub count : ℕ  -- zones
  pub bound : ℕ
  pub high : ℕ
  pub fuel : ℕ
  pub some_key : 0 < bound
  pub word : bound ≤ 2 ^ 32
  pub some_high : 0 < high
  pub few : high + 2 ≤ max_levels
  pub enough : high + 2 * bound + 1 < fuel

-- The counters after the sweep do not ask for a lower index.
abbrev pub Stays : Memory → Limits → Enclave → Heap → Type 0
Stays mem lim e h =
    (d : Dels) (h1 : Heap)
    → bg_trav_mnodes lim.fuel e.sentinel (dels_of e) h ≡ ok d h1
    → asks_lower d ≡ false

-- The level of the sentinel is within the limit.
abbrev pub IsLow : ℕ → Ptr → Heap → Type 0
IsLow high p h =
    (y : Inode) (m : Mnode) → h.inodes p ≡ some y → h.mnodes y.intermed ≡ some m → m.level ≤ high

-- The enclave after a pass of update_index_layer.
abbrev pub updated : Enclave → Ptr → Dels → Enclave
updated e new d = record e { sentinel = new; non_del = d.non_del; tall_del = d.tall_del }

module _ {Seed : Type 0} (rand_range_re : ℕ → Seed → ℕ × Seed) (params : AppParam)
    (malloc : Heap → Ptr) (mem : Memory) (lim : Limits) where
  abbrev pub chosen : Zone Seed → Request
  chosen z = let c = choose rand_range_re params z.loop in record { op = c.otype; key = c.key }

  -- A step, and the operation on the set that it makes: a round of an application that draws a key
  -- and to which malloc supplies a node; an operation that a helper takes out of the array and
  -- publishes; a pass of update_index_layer that does not lower the index and leaves it within the
  -- limit; and a reset of the index, which helper_loop begins with.
  pub data Step : State Seed → Option Request → State Seed → Type 0 where
    work :
        (s : State Seed) (i : ℕ) (l : Loop Seed) (e : Enclave) (h : Heap)
        → i < lim.count
        → (chosen (s.zones i)).key ≢ 0
        → (chosen (s.zones i)).key < lim.bound
        → Supplies malloc (heap_of s.nodes (s.zones i))
        → iterate rand_range_re params malloc lim.fuel
            (s.zones i).enclave.sentinel
            (s.zones i).loop
            (s.zones i).enclave
            (heap_of s.nodes (s.zones i))
          ≡ ok (some (l, e)) h
        → Step s (some (chosen (s.zones i))) (after s i e l h)
    publish :
        (s : State Seed) (i : ℕ) (job : Op) (e : Enclave) (h : Heap)
        → i < lim.count
        → opbuffer_remove (s.zones i).enclave ≡ (some job, e)
        → Allocates mem (heap_of s.nodes (s.zones i))
        → update_intermediate_layer mem lim.fuel
            (s.zones i).enclave.sentinel
            job
            (heap_of s.nodes (s.zones i))
          ≡ ok tt h
        → Step s none (after s i e (s.zones i).loop h)
    update :
        (s : State Seed) (i room : ℕ) (new : Ptr) (d : Dels) (h : Heap)
        → i < lim.count
        → lim.bound + rooms_for lim.high lim.bound + 2 ≤ room
        → Rooms mem room (heap_of s.nodes (s.zones i))
        → Stays mem lim (s.zones i).enclave (heap_of s.nodes (s.zones i))
        → update_index_layer mem lim.fuel
            (s.zones i).enclave.sentinel
            (dels_of (s.zones i).enclave)
            (heap_of s.nodes (s.zones i))
          ≡ ok (new, d) h
        → IsLow lim.high new h
        → Step s none (after s i (updated (s.zones i).enclave new d) (s.zones i).loop h)
    reset :
        (s : State Seed) (i : ℕ) (new : Ptr) (h : Heap)
        → i < lim.count
        → HasRoom mem (heap_of s.nodes (s.zones i))
        → reset_index mem lim.fuel (s.zones i).enclave.sentinel (heap_of s.nodes (s.zones i))
          ≡ ok new h
        → Step s none (
            after s i
              (record (s.zones i).enclave { sentinel = new; reset_index = false })
              (s.zones i).loop
              h)

  abbrev pub and_then : Option Request → List Request → List Request
  and_then none rs = rs
  and_then (some r) rs = r ∷ rs

  -- Any number of steps, with the operations that they make, in their order.
  pub data Steps : State Seed → List Request → State Seed → Type 0 where
    done : (s : State Seed) → Steps s [] s
    more :
        (s t u : State Seed) (r : Option Request) (rs : List Request)
        → Step s r t
        → Steps t rs u
        → Steps s (and_then r rs) u
