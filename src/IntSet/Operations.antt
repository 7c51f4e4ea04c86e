-- ===== src/IntSet/Operations.antt =====
-- set_contains, set_add and set_remove of src/utils/estm-0.2.4.3/bench/lf-linkedlist/linkedlist.c, by
-- the number that says how they are protected.
use hosk.Base.{ℕ, zero, suc, Bool, true, false, not, ◌==◌, ltb, leb, if◌then◌else◌}
use hosk.Enclave.{Ptr}
use hosk.IntSet.{Cells, Act, Stm, stuck, exited, pure, ◌>>=◌, ◌>>◌, load, store, free, new_node}
use hosk.IntSet.Harris.{harris_find, harris_insert, harris_delete}

-- The unprotected loop, on fuel: the last node below the value and the next one.
unfoldable pub scan : ℕ → ℕ → Ptr → Ptr → Act (Ptr × Ptr × ℕ)
scan zero val prev next = λ _. stuck
scan (suc k) val prev next = do
  n ← load next
  let onward = scan k val next n.next
  if ltb n.val val then onward else pure (prev, next, n.val)

module _ (malloc : Cells → Ptr) (stm : Stm) (fuel : ℕ) where
  -- The loop in a transaction.
  unfoldable pub tx_scan : ℕ → ℕ → Ptr → Ptr → Act (Ptr × Ptr × ℕ)
  tx_scan zero val prev next = λ _. stuck
  tx_scan (suc k) val prev next = do
    v ← stm.stm_load_val next
    let onward = do n ← stm.stm_load_next next; tx_scan k val next n
    if leb val v then pure (prev, next, v) else onward

  -- The search of one of the transactions.
  unfoldable pub tx_search : Bool → Ptr → ℕ → Act (Ptr × Ptr × ℕ)
  tx_search normal head val = do
    stm.stm_start normal
    next ← stm.stm_load_next head
    tx_scan fuel val head next

  unfoldable pub scan_set : Ptr → ℕ → Act (Ptr × Ptr × ℕ)
  scan_set head val = do h ← load head; scan fuel val head h.next

  unfoldable pub set_contains : ℕ → Ptr → ℕ → Act Bool
  set_contains transactional head val =
      if transactional == 0
      then (do (prev, next, v) ← scan_set head val; pure (v == val))
      else if leb transactional 4
      then (do
        (prev, next, v) ← tx_search (transactional == 1) head val
        stm.stm_commit
        pure (v == val))
      else if transactional == 5
      then harris_find fuel head val
      else λ _. exited

  unfoldable pub set_add : ℕ → Ptr → ℕ → Act Bool
  set_add transactional head val =
      if transactional == 0
      then (do
        (prev, next, v) ← scan_set head val
        if v == val then pure false else do
          new ← new_node malloc stm val next transactional
          p ← load prev
          store prev (record p { next = new })
          pure true)
      else if leb transactional 4
      then (do
        (prev, next, v) ← tx_search (leb transactional 2) head val
        if v == val then (do stm.stm_commit; pure false) else do
          new ← new_node malloc stm val next transactional
          stm.stm_store_next prev new
          stm.stm_commit
          pure true)
      else if transactional == 5
      then harris_insert malloc stm fuel head val head
      else λ _. exited

  unfoldable pub set_remove : ℕ → Ptr → ℕ → Act Bool
  set_remove transactional head val =
      if transactional == 0
      then (do
        (prev, next, v) ← scan_set head val
        if not (v == val) then pure false else do
          n ← load next
          p ← load prev
          store prev (record p { next = n.next })
          free next
          pure true)
      else if leb transactional 4
      then (do
        (prev, next, v) ← tx_search (leb transactional 3) head val
        if not (v == val) then (do stm.stm_commit; pure false) else do
          n ← stm.stm_load_next next
          stm.stm_store_next prev n
          stm.stm_free next
          stm.stm_commit
          pure true)
      else if transactional == 5
      then harris_delete fuel head val
      else λ _. exited
