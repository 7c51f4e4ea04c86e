-- ===== src/Application.antt =====
-- The application thread of src/hosk/application.cpp.
pub mod Contains
pub mod Delete
pub mod Insert
pub mod Layer
pub mod Search
pub mod Values
use hosk.Base.{
  ℕ, zero, suc, ℤ, pos, negsuc, Bool, true, false, not, ◌&&◌, ◌||◌, ◌==◌, ltb, leb, if◌then◌else◌,
}
use hosk.Enclave.{Ptr}
use hosk.Skiplist.{
  Node, Heap, Word, Cmd, out_of_fuel, pure, ◌>>=◌, ◌>>◌, assert, null, load_node, store_node,
  cas_next, cas_val, node_new, node_delete,
}
use hosk.Helper.{node_remove}

-- `sl_optype_t`
pub data OpType : Type 0 where
  contains delete insert : OpType

-- Whether a result is -1, upon which sl_traverse_data goes on.
abbrev pub is_retry : ℤ → Bool
is_retry (pos _) = false
is_retry (negsuc _) = true

unfoldable pub finish_contains : ℕ → Ptr → Word → Cmd ℤ
unfolding load_node
finish_contains key node node_val = do
  assert (not (node == null))
  n ← load_node node
  pure (if (key == n.key) && not (node_val == null) then pos 1 else pos 0)

-- The loop of sl_finish_delete, on fuel.
unfoldable pub delete_loop : ℕ → Ptr → Cmd ℤ
unfolding load_node cas_val
delete_loop zero node = λ _. out_of_fuel
delete_loop (suc k) node = do
  n ← load_node node
  if (n.val == null) || (node == n.val)
      then pure (pos 0)
      else do done ← cas_val node n.val null; if done then pure (pos 1) else delete_loop k node

unfoldable pub finish_delete : ℕ → ℕ → Ptr → Word → Cmd ℤ
unfolding load_node delete_loop
finish_delete fuel key node node_val = do
  assert (not (node == null))
  n ← load_node node
  if not (n.key == key)
      then pure (pos 0)
      else if not (node_val == null)
      then delete_loop fuel node
      else pure (pos 0)

module _ (malloc : Heap → Ptr) where
  -- The two branches of sl_finish_insert: to bring back the node with the key, and to link a new one
  -- behind `node`. The second component of a result is `*pnode`.
  unfoldable pub insert_val : Word → Ptr → Word → Ptr → Cmd (ℤ × Ptr)
  unfolding cas_val
  insert_val val node node_val pnode = if not (node_val == null) then pure (pos 0, pnode) else do
    done ← cas_val node node_val val
    pure (if done then (pos 1, node) else (negsuc 0, pnode))

  unfoldable pub insert_node : ℕ → Word → Ptr → Ptr → Ptr → Cmd (ℤ × Ptr)
  unfolding load_node store_node cas_next node_new node_delete
  insert_node key val node next pnode = do
    new ← node_new malloc key val node next
    done ← cas_next node next new
    if not done then (do node_delete new; pure (negsuc 0, pnode)) else do
      n ← load_node node
      assert (not (n.next == node))
      if next == null
          then pure (pos 1, new)
          else do m ← load_node next; store_node next (record m { prev = new }); pure (pos 1, new)

  unfoldable pub finish_insert : ℕ → Word → Ptr → Word → Ptr → Ptr → Cmd (ℤ × Ptr)
  unfolding load_node insert_val insert_node
  finish_insert key val node node_val next pnode = do
    n ← load_node node
    if n.key == key then insert_val val node node_val pnode else insert_node key val node next pnode

  -- The branch of sl_traverse_data on the type of the operation.
  unfoldable pub finish : ℕ → OpType → ℕ → Word → Ptr → Word → Ptr → Ptr → Cmd (ℤ × Ptr)
  unfolding finish_contains finish_delete finish_insert
  finish fuel contains key val node node_val next pnode = do
    r ← finish_contains key node node_val
    pure (r, pnode)
  finish fuel delete key val node node_val next pnode = do
    r ← finish_delete fuel key node node_val
    pure (r, pnode)
  finish fuel insert key val node node_val next pnode =
      finish_insert key val node node_val next pnode

  -- `while (node == (node_val = node->val)) node = node->prev;`
  unfoldable pub skip_removed : ℕ → Ptr → Cmd (Ptr × Word)
  unfolding load_node
  skip_removed zero node = λ _. out_of_fuel
  skip_removed (suc k) node = do
    n ← load_node node
    if node == n.val then skip_removed k n.prev else pure (node, n.val)

  -- sl_traverse_data: the result and `*pnode`. The loops run on fuel.
  unfoldable pub traverse_data : ℕ → OpType → ℕ → Word → Ptr → Ptr → Cmd (ℤ × Ptr)
  unfolding load_node node_remove finish skip_removed
  traverse_data zero op key val node pnode = λ _. out_of_fuel
  traverse_data (suc k) op key val start pnode = do
    (node, node_val) ← skip_removed k start
    n ← load_node node
    let next = n.next
    let again = traverse_data k op key val node
    let settle = do
      (result, pn) ← finish k op key val node node_val next pnode
      if is_retry result then again pn else pure (result, pn)
    if next == null then settle else do
      m ← load_node next
      let onward = traverse_data k op key val next pnode
      if m.val == next
          then (do node_remove malloc k node next; again pnode)
          else if ltb key m.key
          then settle
          else onward
