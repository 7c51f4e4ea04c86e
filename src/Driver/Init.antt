-- ===== src/Driver/Init.antt =====
-- thread_init of src/hosk/test.cpp: the enclave with the first nodes of its layers. The thread's pinning
-- and its preferred NUMA zone are left out; the enclave's allocator is `nalloc` of the memory.
use hosk.Base.{
  ℕ, ◌^◌, ◌≤◌, ◌<◌, ◌≡◌, refl, ◌≢◌, none, some, false, arith, ◌==◌, if◌then◌else◌, length-replicate,
}
use hosk.Enclave.{no_op, Ptr, Core, Enclave, new_enclave}
use hosk.Enclave.OpBuffer.{IsValid}
use hosk.Skiplist.{Node, Inode, Mnode, Heap, Cmd, ok, pure, ◌>>=◌, null, write, load_node}
use hosk.Skiplist.Upper.{Memory, place, inode_new, mnode_new, load_mnode, store_mnode, store_inode}
use hosk.Application.Layer.{IsLayer}
use hosk.Index.{IsIndex, IsSkiplist}
use hosk.Operation.Set.{Represents}

-- `seed` is what `rand` returns in the enclave's constructor.
unfoldable pub thread_init : Memory → Core → ℕ → Ptr → ℕ → ℕ → ℕ → ℕ → Cmd Enclave
thread_init mem core sock_num node_sentinel freq enclave_num buffer_size seed = do
  mnode ← mnode_new mem null node_sentinel 1
  inode ← inode_new mem null null mnode
  pure (new_enclave core sock_num inode freq enclave_num buffer_size seed)

module _ (sentinel : Ptr) (level : ℕ) where
  -- The sentinel of the data layer, as main makes it.
  abbrev pub first : Node
  first = record { prev = null; next = null; val = null; key = 0; level = level }

  abbrev pub empty : Heap
  empty = record {
    nodes = write (λ _. none) sentinel (some first);
    inodes = λ _. none;
    mnodes = λ _. none;
  }

  module _ (mem : Memory) where
    abbrev mnode : Ptr
    mnode = mem.nalloc empty

    abbrev first_mnode : Mnode
    first_mnode = record { next = null; node = sentinel; key = 0; level = 1; marked = false }

    abbrev with_mnode : Heap
    with_mnode = record empty { mnodes = write (λ _. none) mnode (some first_mnode) }

    abbrev inode : Ptr
    inode = place mem with_mnode

    abbrev first_inode : Inode
    first_inode = record { right = null; down = null; intermed = mnode; key = 0 }

    abbrev pub made : Heap
    made = record with_mnode { inodes = write (λ _. none) inode (some first_inode) }

    abbrev height : Ptr → ℕ
    height p = if p == inode then 1 else 0

    module _ (high : 2 ^ 32 ≤ sentinel) (live_mnode : mnode ≢ null)
        (live_inode : inode ≢ null) where
      made-IsLayer : IsLayer made.nodes
      made-IsLayer = record {
        high = ground arith;
        chain = record {
          unique = ground arith;
          follows = λ p n e ne. absurd (ground arith);
          goes_on = ground arith;
          least = ground arith;
        };
      }

      made-IsIndex : IsIndex height made
      made-IsIndex = record {
        mnodes = record {
          unique = ground arith;
          follows = λ p n e ne. absurd (ground arith);
          goes_on = ground arith;
          least = ground arith;
        };
        live_mnode = ground arith;
        live_inode = ground arith;
        right = λ p i e used ne. absurd (ground arith);
        down = λ p i e used ne. absurd (ground arith);
        bottom = λ p i e used z. ground arith;
        intermed = λ p i e used. (first_mnode, ground arith, ground arith, ground arith);
        node = λ p m e. (first, ground arith, ground arith);
      }

      made-IsSkiplist : IsSkiplist height inode made
      made-IsSkiplist = record {
        layer = made-IsLayer;
        index = made-IsIndex;
        start = (first_inode, ground arith, refl);
        used = ground arith;
        top = λ i m ei em. ground arith;
      }

      thread_init-made :
          (core : Core) (sock freq num bsz seed : ℕ)
          → thread_init mem core sock sentinel freq num bsz seed empty
            ≡ ok (new_enclave core sock inode freq num bsz seed) made
      unfolding thread_init mnode_new inode_new load_mnode store_mnode store_inode load_node
      thread_init-made core sock freq num bsz seed = ground arith

-- Over a data layer with nothing but its sentinel, which lives above 2 ^ 32, and where the allocators
-- give addresses: thread_init ends with an enclave whose layers fit together, with an index that is one
-- level high; they represent the empty set; the array is well formed, and no operation waits in it.
pub thread_init-Ready :
    (mem : Memory) (core : Core) (sock sentinel level freq num bsz seed : ℕ)
    → 2 ^ 32 ≤ sentinel
    → mnode sentinel level mem ≢ null
    → inode sentinel level mem ≢ null
    → 0 < bsz
    → (height : Ptr → ℕ) × (e : Enclave) × (h : Heap) × (thread_init mem core sock sentinel freq num
          bsz seed
          (empty sentinel level)
        ≡ ok e h)
      × IsSkiplist height e.sentinel h
      × (height e.sentinel ≡ 1)
      × Represents (λ _. false) h
      × IsValid e
      × (e.app_idx ≡ e.hlp_idx)
unfolding new_enclave
thread_init-Ready mem core sock sentinel level freq num bsz seed high live_mnode live_inode room = (
  height sentinel level mem,
  new_enclave core sock (inode sentinel level mem) freq num bsz seed,
  made sentinel level mem,
  thread_init-made sentinel level mem high live_mnode live_inode core sock freq num bsz seed,
  made-IsSkiplist sentinel level mem high live_mnode live_inode,
  ground arith,
  λ j. (λ t. absurd (ground arith), λ (v, (p, n, e, k, ev, nz)). absurd (ground arith)),
  record { storage = length-replicate bsz no_op; app_in = room; hlp_in = room },
  refl,
)
