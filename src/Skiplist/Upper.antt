-- ===== src/Skiplist/Upper.antt =====
-- The functions of src/hosk/skiplist.cpp on the intermediate layer and the index layer, and the two
-- loops that search these layers, which src/hosk/application.cpp and src/hosk/helper.cpp have alike.
-- `nalloc h` is the address that the enclave's allocator returns when the heap is `h`.
use hosk.Base.{ℕ, zero, suc, ◌+◌, Bool, false, ◌&&◌, Option, none, some, ◌==◌, ltb, if◌then◌else◌}
use hosk.Enclave.{Ptr}
use hosk.Skiplist.{
  Inode, Mnode, Heap, ok, fault, out_of_fuel, Cmd, pure, ◌>>=◌, ◌>>◌, null, write, fetch, load_node,
}

unfoldable pub load_inode : Ptr → Cmd Inode
load_inode p h = if p == null then fault else fetch (h.inodes p) λ i. ok i h

unfoldable pub load_mnode : Ptr → Cmd Mnode
load_mnode p h = if p == null then fault else fetch (h.mnodes p) λ m. ok m h

unfoldable pub store_inode : Ptr → Inode → Cmd (Unit {0})
store_inode p i h = ok tt (record h { inodes = write h.inodes p (some i) })

unfoldable pub store_mnode : Ptr → Mnode → Cmd (Unit {0})
store_mnode p m h = ok tt (record h { mnodes = write h.mnodes p (some m) })

-- The allocators: `base_malloc` is true until the initial population ends, and `buf_old` is the block
-- that nalloc gave last.
pub record Memory : Type 0 where
  pub malloc : Heap → Ptr
  pub nalloc : Heap → Ptr
  pub base_malloc : Bool
  pub buf_old : Heap → Ptr

-- Where the next index node goes.
abbrev pub place : Memory → Heap → Ptr
place mem h = if mem.base_malloc then mem.malloc h else mem.nalloc h

unfoldable pub inode_new : Memory → Ptr → Ptr → Ptr → Cmd Ptr
unfolding load_mnode store_inode
inode_new mem right down intermed h =
    let p = place mem h in
    if p == null
    then fault
    else (do
      m ← load_mnode intermed
      store_inode p (record { right = right; down = down; intermed = intermed; key = m.key })
      pure p)
        h

unfoldable pub mnode_new : Memory → Ptr → Ptr → ℕ → Cmd Ptr
unfolding load_node store_mnode
mnode_new mem next node level h =
    let p = mem.nalloc h in
    if p == null
    then fault
    else (do
      n ← load_node node
      store_mnode p
          (record { next = next; node = node; key = n.key; level = level; marked = false })
      pure p)
        h

-- memcmp of two blocks, where both hold index nodes.
abbrev pub same_bytes : Option Inode → Option Inode → Bool
same_bytes none y = false
same_bytes (some x) none = false
same_bytes (some x) (some y) =
    (x.right == y.right) && (x.down == y.down) && (x.intermed == y.intermed) && (x.key == y.key)

-- nfree gives back the block that nalloc gave last, if its bytes are the same as those of the block
-- at `p`; else it does nothing.
unfoldable pub inode_delete : Memory → Ptr → Cmd (Unit {0})
inode_delete mem p h =
    let last = mem.buf_old h in
    if same_bytes (h.inodes p) (h.inodes last)
    then ok tt (record h { inodes = write h.inodes last none })
    else ok tt h

-- The node is no longer one of the layer.
unfoldable pub mnode_delete : Ptr → Cmd (Unit {0})
mnode_delete p h = ok tt (record h { mnodes = write h.mnodes p none })

-- The loop of intermed_layer_size, on fuel.
unfoldable pub intermed_layer_size : ℕ → Ptr → ℕ → Cmd ℕ
unfolding load_mnode
intermed_layer_size zero p size = λ _. out_of_fuel
intermed_layer_size (suc k) p size =
    if p == null
    then pure size
    else do m ← load_mnode p; intermed_layer_size k m.next (if m.marked then size else size + 1)

-- The descent through the index layer, on fuel: `item` is where the loop stands.
unfoldable pub index_search : ℕ → ℕ → Ptr → Cmd Ptr
unfolding load_inode
index_search zero key item = λ _. out_of_fuel
index_search (suc k) key item = do
  i ← load_inode item
  let lower = index_search k key i.down
  let onward = index_search k key i.right
  let descend = if i.down == null then pure i.intermed else lower
  if i.right == null then descend else do
    r ← load_inode i.right
    if ltb key r.key then descend else if r.key == key then pure i.intermed else onward

-- The walk along the intermediate layer to the last node that is not behind the key.
unfoldable pub mnode_search : ℕ → ℕ → Ptr → Cmd Ptr
unfolding load_mnode
mnode_search zero key p = λ _. out_of_fuel
mnode_search (suc k) key p = do
  m ← load_mnode p
  let onward = mnode_search k key m.next
  if m.next == null
      then pure p
      else do x ← load_mnode m.next; if ltb key x.key then pure p else onward
