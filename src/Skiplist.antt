-- ===== src/Skiplist.antt =====
-- The three kinds of nodes of src/hosk/skiplist.h on an explicit heap, and the functions of
-- src/hosk/skiplist.cpp on the data layer. A command reads and writes the heap. It faults where the
-- source would read or write through a null or dangling pointer, and aborts where an assertion
-- fails. `malloc h` is the address that malloc returns when the heap is `h`.
pub mod Upper
pub mod Zones
use hosk.Base.{
  ℕ, zero, suc, ◌+◌, Bool, true, false, not, ◌&&◌, Option, none, some, ◌==◌, if◌then◌else◌,
}
use hosk.Enclave.{Ptr}

-- A word of memory that holds a value or a pointer.
abbrev pub Word : Type 0
Word = ℕ

abbrev pub null : Ptr
null = 0

-- `node_t`
pub record Node : Type 0 where
  pub prev : Ptr
  pub next : Ptr
  pub val : Word
  pub key : ℕ
  pub level : ℕ

-- `inode_t`
pub record Inode : Type 0 where
  pub right : Ptr
  pub down : Ptr
  pub intermed : Ptr
  pub key : ℕ

-- `mnode_t`
pub record Mnode : Type 0 where
  pub next : Ptr
  pub node : Ptr
  pub key : ℕ
  pub level : ℕ
  pub marked : Bool

abbrev pub Store : Type 0 → Type 0
Store A = Ptr → Option A

pub record Heap : Type 0 where
  pub nodes : Store Node
  pub inodes : Store Inode
  pub mnodes : Store Mnode

-- What a command comes to.
pub data Run (Result : Type 0) : Type 0 where
  out_of_fuel aborted fault : Run Result
  ok : Result → Heap → Run Result

module _ {A : Type 0} where
  abbrev pub pure : A → Heap → Run A
  pure = ok

  abbrev pub continue : {B : Type 0} → Run A → (A → Heap → Run B) → Run B
  continue out_of_fuel rest = out_of_fuel
  continue aborted rest = aborted
  continue fault rest = fault
  continue (ok a h) rest = rest a h

abbrev pub Cmd : Type 0 → Type 0
Cmd Result = Heap → Run Result

infixl 4 ◌>>=◌
abbrev pub ◌>>=◌ : {A B : Type 0} → Cmd A → (A → Cmd B) → Cmd B
(first >>= rest) h = continue (first h) rest

infixl 4 ◌>>◌
abbrev pub ◌>>◌ : {A B : Type 0} → Cmd A → Cmd B → Cmd B
(first >> second) h = continue (first h) λ _. second

abbrev pub assert : Bool → Cmd (Unit {0})
assert true = ok tt
assert false = λ _. aborted

module _ {A : Type 0} where
  abbrev pub write : Store A → Ptr → Option A → Store A
  write s p c a = if p == a then c else s a

  -- `*p`
  abbrev pub fetch : {B : Type 0} → Option A → (A → Run B) → Run B
  fetch none k = fault
  fetch (some a) k = k a

-- `*p`, a fault at `NULL` and where no node lives.
unfoldable pub load_node : Ptr → Cmd Node
load_node p h = if p == null then fault else fetch (h.nodes p) λ n. ok n h

unfoldable pub store_node : Ptr → Node → Cmd (Unit {0})
store_node p n h = ok tt (record h { nodes = write h.nodes p (some n) })

-- CAS on `p->next` and on `p->val`.
unfoldable pub cas_next : Ptr → Ptr → Ptr → Cmd Bool
unfolding load_node store_node
cas_next p old new = do
  n ← load_node p
  if n.next == old then (do store_node p (record n { next = new }); pure true) else pure false

unfoldable pub cas_val : Ptr → Word → Word → Cmd Bool
unfolding load_node store_node
cas_val p old new = do
  n ← load_node p
  if n.val == old then (do store_node p (record n { val = new }); pure true) else pure false

-- A write through what malloc returned: the source does not test it for `NULL`.
unfoldable pub node_new : (Heap → Ptr) → ℕ → Word → Ptr → Ptr → Cmd Ptr
unfolding store_node
node_new malloc key val prev next h =
    let p = malloc h in
    if p == null
    then fault
    else (do
      store_node p (record { prev = prev; next = next; val = val; key = key; level = 0 })
      pure p)
        h

-- `free`
unfoldable pub node_delete : Ptr → Cmd (Unit {0})
node_delete p h = ok tt (record h { nodes = write h.nodes p none })

-- The loop of data_layer_size, on fuel.
unfoldable pub size_loop : ℕ → Bool → Ptr → ℕ → Cmd ℕ
unfolding load_node
size_loop zero flag p size = λ _. out_of_fuel
size_loop (suc k) flag p size = if p == null then pure size else do
  n ← load_node p
  size_loop k flag n.next (
      if flag && (not (n.val == null) && not (p == n.val))
      then size + 1
      else if not flag && not (n.key == 0)
      then size + 1
      else size)

unfoldable pub data_layer_size : ℕ → Ptr → Bool → Cmd ℕ
unfolding load_node size_loop
data_layer_size fuel head flag = do n ← load_node head; size_loop fuel flag n.next 0
