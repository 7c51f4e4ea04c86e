-- ===== src/Operation.antt =====
-- Whole operations of src/hosk/application.cpp: the entry through the index layer, then the search
-- in the data layer.
pub mod Refinement
pub mod Set
pub mod Simulation
use hosk.Base.{ℕ, ℤ, List, [], ◌∷◌}
use hosk.Enclave.{Ptr}
use hosk.Skiplist.{Heap, Cmd, pure, ◌>>=◌, null}
use hosk.Skiplist.Upper.{load_mnode, index_search, mnode_search}
use hosk.Application.{OpType, traverse_data}

-- sl_traverse_index: the data node where the search in the data layer begins.
unfoldable pub traverse_index : ℕ → ℕ → Ptr → Cmd Ptr
unfolding load_mnode index_search mnode_search
traverse_index fuel key sentinel = do
  p ← index_search fuel key sentinel
  q ← mnode_search fuel key p
  m ← load_mnode q
  pure m.node

-- sl_do_operation: the value is the key.
unfoldable pub do_operation : (Heap → Ptr) → ℕ → Ptr → ℕ → OpType → Ptr → Cmd (ℤ × Ptr)
unfolding traverse_index traverse_data
do_operation malloc fuel sentinel key op pnode = do
  node ← traverse_index fuel key sentinel
  traverse_data malloc fuel op key key node pnode

pub record Request : Type 0 where
  pub op : OpType
  pub key : ℕ

-- The operations of application_loop, one after the other, each with `*pnode` at `NULL` before.
unfoldable pub do_all : (Heap → Ptr) → ℕ → Ptr → List Request → Cmd (List ℤ)
unfolding do_operation
do_all malloc fuel sentinel [] = pure []
do_all malloc fuel sentinel (r ∷ rs) = do
  (result, p) ← do_operation malloc fuel sentinel r.key r.op null
  results ← do_all malloc fuel sentinel rs
  pure (result ∷ results)
