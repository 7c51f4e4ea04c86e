-- ===== src/IntSet.antt =====
-- The integer set of src/utils/estm-0.2.4.3/bench/lf-linkedlist: its nodes on an explicit heap, and the
-- functions of intset.c. Values are counted from VAL_MIN. The transactional memory is a library: its
-- calls are parameters. `perror` and `exit` are one outcome.
pub mod Harris
pub mod Operations
pub mod Neighbours
pub mod Additions
pub mod Removals
pub mod Protected
pub mod Sorted
use hosk.Base.{
  ℕ, zero, suc, ◌+◌, ◌-◌, ◌^◌, Bool, true, false, Option, none, some, ◌==◌, if◌then◌else◌,
}
use hosk.Enclave.{Ptr}
use hosk.Skiplist.{Store, null, write}

-- `node_t`
pub record ListNode : Type 0 where
  pub val : ℕ
  pub next : Ptr

abbrev pub val_max : ℕ
val_max = 2 ^ 32 - 1

abbrev pub Cells : Type 0
Cells = Store ListNode

-- What a function comes to.
pub data Outcome (Result : Type 0) : Type 0 where
  stuck fault exited : Outcome Result
  done : Result → Cells → Outcome Result

abbrev pub Act : Type 0 → Type 0
Act Result = Cells → Outcome Result

module _ {A : Type 0} where
  abbrev pub pure : A → Act A
  pure = done

  abbrev pub follow : {B : Type 0} → Outcome A → (A → Act B) → Outcome B
  follow stuck rest = stuck
  follow fault rest = fault
  follow exited rest = exited
  follow (done a h) rest = rest a h

infixl 4 ◌>>=◌
abbrev pub ◌>>=◌ : {A B : Type 0} → Act A → (A → Act B) → Act B
(first >>= rest) h = follow (first h) rest

infixl 4 ◌>>◌
abbrev pub ◌>>◌ : {A B : Type 0} → Act A → Act B → Act B
(first >> second) h = follow (first h) λ _. second

abbrev pub at_node : {A : Type 0} → Option ListNode → (ListNode → Outcome A) → Outcome A
at_node none rest = fault
at_node (some n) rest = rest n

unfoldable pub load : Ptr → Act ListNode
load p h = if p == null then fault else at_node (h p) λ n. done n h

unfoldable pub store : Ptr → ListNode → Act (Unit {0})
store p n h = done tt (write h p (some n))

unfoldable pub free : Ptr → Act (Unit {0})
free p h = done tt (write h p none)

-- The calls of the transactional memory, by the field that they read or write; the argument of
-- `stm_start` is the type of the transaction, true for a normal one.
pub record Stm : Type 0 where
  pub stm_start : Bool → Act (Unit {0})
  pub stm_load_val : Ptr → Act ℕ
  pub stm_load_next : Ptr → Act Ptr
  pub stm_store_next : Ptr → Ptr → Act (Unit {0})
  pub stm_malloc : Cells → Ptr
  pub stm_free : Ptr → Act (Unit {0})
  pub stm_commit : Act (Unit {0})

module _ (malloc : Cells → Ptr) (stm : Stm) where
  unfoldable pub new_node : ℕ → Ptr → ℕ → Act Ptr
  new_node val next transactional h =
      let p = if transactional == 0 then malloc h else stm.stm_malloc h in
      if p == null then exited else (do store p (record { val = val; next = next }); pure p) h

  -- The set is its `head`.
  unfoldable pub set_new : Act Ptr
  set_new = do max ← new_node val_max null 0; min ← new_node 0 max 0; pure min

-- The loop of set_delete, on fuel.
unfoldable pub set_delete : ℕ → Ptr → Act (Unit {0})
set_delete zero node = λ _. stuck
set_delete (suc k) node =
    if node == null then pure tt else do n ← load node; free node; set_delete k n.next

-- The loop of set_size, on fuel.
unfoldable pub size_from : ℕ → ℕ → Ptr → Act ℕ
size_from zero size node = λ _. stuck
size_from (suc k) size node = do
  n ← load node
  let more = size_from k (size + 1) n.next
  if n.next == null then pure size else more

unfoldable pub set_size : ℕ → Ptr → Act ℕ
set_size fuel head = do n ← load head; size_from fuel 0 n.next
