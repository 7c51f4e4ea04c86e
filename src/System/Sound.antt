-- ===== src/System/Sound.antt =====
-- What holds between the steps of the threads: each enclave's layers fit together over the shared data
-- layer, and the data layer represents a set of keys.
use hosk.Base.{ℕ, ◌≤◌, ◌<◌, ◌≡◌, ◌∙◌, ◌≢◌, ◌↔◌, true, some, ℕ_discrete, get_or, ==_true, ==_false}
use hosk.Enclave.{Ptr, Op, no_op, Enclave}
use hosk.Enclave.OpBuffer.{IsValid}
use hosk.Skiplist.{Node, Store, Heap}
use hosk.Application.Layer.{IsLayer, KeepsKeys}
use hosk.Application.Contains.{Has}
use hosk.Index.{IsSkiplist}
use hosk.Index.Change.{nodes-IsSkiplist}
use hosk.Operation.Set.{KeySet, Represents}
use hosk.Sweep.Trav.{Below}
use hosk.System.{Zone, State, heap_of, zone_of, after, Loop}

-- An operation that the helper can publish.
abbrev pub IsGood : ℕ → Store Node → Op → Type 0
IsGood bound nodes job =
    (job.node ≢ 0 → (n : Node) × (nodes job.node ≡ some n) × (n.key ≡ job.key)) × (job.key < bound)

-- An enclave over a data layer.
pub record IsSoundZone {Seed : Type 0} (bound high : ℕ) (nodes : Store Node) (z : Zone Seed)
    : Type 0 where
  pub height : Ptr → ℕ
  pub whole : IsSkiplist height z.enclave.sentinel (heap_of nodes z)
  pub low : height z.enclave.sentinel ≤ high
  pub valid : IsValid z.enclave
  pub jobs : (k : ℕ) → IsGood bound nodes (get_or z.enclave.opbuffer k no_op)
  pub below : Below bound (heap_of nodes z)

pub IsGood-keeps :
    {bound : ℕ} {s t : Store Node} (job : Op)
    → KeepsKeys s t
    → IsGood bound s job
    → IsGood bound t job
IsGood-keeps job keeps (is, small) = (
  λ ne. let (n, en, kn) = is ne in let (m, em, km) = keeps job.node n en in (m, em, km ∙ kn),
  small,
)

-- All zones, and the set.
pub record IsSound {Seed : Type 0} (bound high count : ℕ) (set : KeySet) (s : State Seed)
    : Type 0 where
  pub zone : (i : ℕ) → i < count → IsSoundZone bound high s.nodes (s.zones i)
  pub set_is : (j : ℕ) → (set j ≡ true) ↔ Has s.nodes j

module _ {Seed : Type 0} {bound high : ℕ} where
  -- Another thread changes the data layer and keeps its nodes.
  elsewhere :
      {s t : Store Node} {z : Zone Seed}
      → IsLayer t
      → KeepsKeys s t
      → IsSoundZone bound high s z
      → IsSoundZone bound high t z
  elsewhere {s} {t} {z} layer keeps sound = record {
    height = sound.height;
    whole = nodes-IsSkiplist sound.whole t layer keeps;
    low = sound.low;
    valid = sound.valid;
    jobs = λ k. IsGood-keeps (get_or z.enclave.opbuffer k no_op) keeps (sound.jobs k);
    below = sound.below;
  }

  -- A step of the zone `i` that keeps the nodes and leaves a zone that is sound.
  pub after-IsSound :
      {count : ℕ} {set set' : KeySet} {s : State Seed} (i : ℕ) (e : Enclave) (l : Loop Seed)
      (h : Heap)
      → IsSound bound high count set s
      → IsSoundZone bound high h.nodes (zone_of e l h)
      → KeepsKeys s.nodes h.nodes
      → Represents set' h
      → IsSound bound high count set' (after s i e l h)
  after-IsSound {count} {s = s} i e l h sound next keeps same = record {
    zone = λ w lt. elim (ℕ_discrete i w) [
      | yes z ↦ rw (==_true i w z) next
      | no ne ↦ rw (==_false i w ne) (elsewhere next.whole.layer keeps (sound.zone w lt))
    ];
    set_is = same;
  }
