-- ===== src/IntSet/Harris.antt =====
-- Harris' list of src/utils/estm-0.2.4.3/bench/lf-linkedlist/harris.c. A reference is marked by its
-- lowest bit; a compare-and-swap is one step.
use hosk.Base.{
  ℕ, zero, suc, ◌+◌, ◌-◌, ◌%◌, Bool, true, false, not, ◌&&◌, ◌||◌, ◌==◌, ltb, if◌then◌else◌,
}
use hosk.Enclave.{Ptr}
use hosk.Skiplist.{null}
use hosk.IntSet.{Cells, Act, Stm, stuck, pure, ◌>>=◌, ◌>>◌, load, store, new_node}

-- References are below LONG_MAX, where the mask keeps the lowest bit only.
unfoldable pub is_marked_ref : Ptr → Bool
is_marked_ref i = i % 2 == 1

unfoldable pub unset_mark : Ptr → Ptr
unset_mark i = i - i % 2

unfoldable pub set_mark : Ptr → Ptr
set_mark i = unset_mark i + 1

unfoldable pub get_unmarked_ref : Ptr → Ptr
get_unmarked_ref w = unset_mark w

unfoldable pub get_marked_ref : Ptr → Ptr
get_marked_ref w = set_mark w

-- CAS on `p->next`.
unfoldable pub cas_ref : Ptr → Ptr → Ptr → Act Bool
cas_ref p old new = do
  n ← load p
  if n.next == old then (do store p (record n { next = new }); pure true) else pure false

-- "Find left_node and right_node", on fuel: the left node, its successor and the right node.
unfoldable pub find_nodes : ℕ → ℕ → Ptr → Ptr → Ptr → Ptr → Act (Ptr × Ptr × Ptr)
find_nodes zero val t t_next left left_next = λ _. stuck
find_nodes (suc k) val t t_next left left_next = do
  let (left, left_next) = if is_marked_ref t_next then (left, left_next) else (t, t_next)
  let t = get_unmarked_ref t_next
  n ← load t
  let onward = find_nodes k val t n.next left left_next
  if n.next == null
      then pure (left, left_next, t)
      else if is_marked_ref n.next || ltb n.val val
      then onward
      else pure (left, left_next, t)

-- The loop of harris_search, on fuel: the left node and the right node. `left` and `left_next` keep
-- their values where the source goes back to its start.
unfoldable pub search_again : ℕ → Ptr → ℕ → Ptr → Ptr → Act (Ptr × Ptr)
search_again zero head val left left_next = λ _. stuck
search_again (suc k) head val left left_next = do
  h ← load head
  (left, left_next, right) ← find_nodes k val head h.next left left_next
  let again = search_again k head val left left_next
  let settle = do
    r ← load right
    if not (r.next == null) && is_marked_ref r.next then again else pure (left, right)
  if left_next == right
      then settle
      else do swapped ← cas_ref left left_next right; if swapped then settle else again

unfoldable pub harris_search : ℕ → Ptr → ℕ → Ptr → Act (Ptr × Ptr)
harris_search fuel head val left = search_again fuel head val left head

unfoldable pub harris_find : ℕ → Ptr → ℕ → Act Bool
harris_find fuel head val = do
  (left, right) ← harris_search fuel head val head
  r ← load right
  pure (if (r.next == null) || not (r.val == val) then false else true)

module _ (malloc : Cells → Ptr) (stm : Stm) where
  unfoldable pub harris_insert : ℕ → Ptr → ℕ → Ptr → Act Bool
  harris_insert zero head val left = λ _. stuck
  harris_insert (suc k) head val left = do
    (left, right) ← harris_search k head val left
    r ← load right
    let link = do
      newnode ← new_node malloc stm val right 0
      swapped ← cas_ref left right newnode
      let again = harris_insert k head val left
      if swapped then pure true else again
    if r.val == val then pure false else link

-- The loop of harris_delete: none if the value is missing, else the nodes and the reference that was
-- marked.
unfoldable pub mark_node : ℕ → Ptr → ℕ → Ptr → Act (Bool × Ptr × Ptr × Ptr)
mark_node zero head val left = λ _. stuck
mark_node (suc k) head val left = do
  (left, right) ← harris_search k head val left
  r ← load right
  let again = mark_node k head val left
  let mark = do
    marked ← cas_ref right r.next (get_marked_ref r.next)
    if marked then pure (true, left, right, r.next) else again
  if not (r.val == val)
      then pure (false, left, right, r.next)
      else if is_marked_ref r.next
      then again
      else mark

unfoldable pub harris_delete : ℕ → Ptr → ℕ → Act Bool
harris_delete fuel head val = do
  (found, left, right, next) ← mark_node fuel head val head
  if not found then pure false else do
    swapped ← cas_ref left right next
    let unlink = do r ← load right; harris_search fuel head r.val left; pure true
    if swapped then pure true else unlink
