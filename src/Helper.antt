-- ===== src/Helper.antt =====
-- The helper thread of src/hosk/helper.cpp.
pub mod Publish
pub mod Update
use hosk.Base.{ℕ, zero, suc, false, true, not, ◌&&◌, ◌||◌, ◌==◌, if◌then◌else◌, Bool}
use hosk.Enclave.{Ptr, Op}
use hosk.Skiplist.Upper.{
  Memory, load_mnode, store_mnode, mnode_new, mnode_delete, index_search, mnode_search, inode_new,
  load_inode,
}
use hosk.Skiplist.{
  Heap, Cmd, out_of_fuel, pure, ◌>>=◌, ◌>>◌, assert, null, load_node, store_node, cas_next,
  node_new,
}

module _ (malloc : Heap → Ptr) where
  -- The loop of node_remove: it puts a marker with key 0 behind `node`, on fuel.
  unfoldable pub mark_loop : ℕ → Ptr → Ptr → Cmd Ptr
  unfolding load_node store_node cas_next node_new
  mark_loop zero node ptr = λ _. out_of_fuel
  mark_loop (suc k) node ptr = do
    more ← (if ptr == null then pure true else do p ← load_node ptr; pure (not (p.key == 0)))
    if not more then pure ptr else do
      insert ← node_new malloc 0 null node ptr
      m ← load_node insert
      store_node insert (record m { val = insert })
      cas_next node ptr insert
      n ← load_node node
      assert (not (n.next == node))
      mark_loop k node n.next

  unfoldable pub node_remove : ℕ → Ptr → Ptr → Cmd (Unit {0})
  unfolding mark_loop
  node_remove fuel prev node = do
    assert (not (prev == null))
    assert (not (node == null))
    n ← load_node node
    if not (n.val == node) || (n.key == 0) then pure tt else do
      ptr ← mark_loop fuel node n.next
      p ← load_node prev
      if not (p.next == node) || (p.key == 0) && not (p.prev == null) then pure tt else do
        m ← load_node ptr
        cas_next prev node m.next
        p ← load_node prev
        assert (not (p.next == prev))

-- The last step of update_intermediate_layer, at the node where the search ends.
unfoldable pub update_mnode : Memory → Op → Ptr → Cmd (Unit {0})
unfolding load_mnode store_mnode mnode_new
update_mnode mem job q = do
  m ← load_mnode q
  if not (job.node == null)
      then if m.key == job.key
        then if m.marked then store_mnode q (record m { marked = false }) else pure tt
        else (do
          new ← mnode_new mem m.next job.node 0
          x ← load_mnode q
          store_mnode q (record x { next = new }))
      else if m.key == job.key
      then store_mnode q (record m { marked = true })
      else pure tt

unfoldable pub update_intermediate_layer : Memory → ℕ → Ptr → Op → Cmd (Unit {0})
unfolding index_search mnode_search update_mnode
update_intermediate_layer mem fuel sentinel job = do
  p ← index_search fuel job.key sentinel
  q ← mnode_search fuel job.key p
  update_mnode mem job q

-- Whether the node was removed.
unfoldable pub bg_mremove : Ptr → Ptr → Cmd Bool
unfolding load_mnode store_mnode mnode_delete
bg_mremove prev mnode = do
  assert (not (prev == null))
  assert (not (mnode == null))
  m ← load_mnode mnode
  if (m.level == 0) && m.marked
      then (do
        p ← load_mnode prev
        store_mnode prev (record p { next = m.next })
        mnode_delete mnode
        pure true)
      else pure false
