-- ===== src/Enclave/OpBuffer.antt =====
-- The circular array of operations (opbuffer_insert and opbuffer_remove of
-- src/hosk/enclave.cpp): what the two threads can do to it in any order.
pub mod Queue
pub mod Stall
use hosk.Base.{
  ℕ, ◌+◌, ◌<◌, ◌≡◌, refl, true, Option, none, some, List, [], ◌∷◌, ◌++◌, arith, Bool, if◌then◌else◌,
  length, length-set, length-replicate,
}
use hosk.Enclave.{Ptr, Op, Core, Enclave, new_enclave, opbuffer_insert, opbuffer_remove}

-- A call of one of the two threads.
pub data Event : Type 0 where
  insert : ℕ → Ptr → Event
  remove : Event

-- What has gone in and come out, oldest first, and the enclave that is left.
pub record Trace : Type 0 where
  pub enclave : Enclave
  pub inserted : List Op
  pub removed : List Op

abbrev pub push_if : Bool → Op → List Op → List Op
push_if b x xs = if b then xs ++ x ∷ [] else xs

abbrev pub push_some : Option Op → List Op → List Op
push_some none xs = xs
push_some (some x) xs = xs ++ x ∷ []

unfoldable pub step : Trace → Event → Trace
step t (insert key node) =
    let (done, e) = opbuffer_insert key node t.enclave in
    record t { enclave = e; inserted = push_if done (record { key = key; node = node }) t.inserted }
step t remove =
    let (job, e) = opbuffer_remove t.enclave in
    record t { enclave = e; removed = push_some job t.removed }

unfoldable pub run : Trace → List Event → Trace
run t [] = t
run t (x ∷ xs) = run (step t x) xs

-- A new enclave on which nothing has been done.
unfoldable pub start : Core → ℕ → Ptr → ℕ → ℕ → ℕ → ℕ → Trace
start c sock s freq e_num bsz seed = record {
  enclave = new_enclave c sock s freq e_num bsz seed;
  inserted = [];
  removed = [];
}

-- The indices are in range.
pub record IsValid (e : Enclave) : Type 0 where
  pub storage : length e.opbuffer ≡ e.buf_size
  pub app_in : e.app_idx < e.buf_size
  pub hlp_in : e.hlp_idx < e.buf_size

pub opbuffer_insert-IsValid :
    (key : ℕ) (node : Ptr) {e : Enclave} → IsValid e → IsValid (opbuffer_insert key node e).1
unfolding opbuffer_insert
opbuffer_insert-IsValid key node {e} v =
    ground (arith, length-set e.opbuffer e.app_idx (record { key = key; node = node }))

pub opbuffer_remove-IsValid : {e : Enclave} → IsValid e → IsValid (opbuffer_remove e).1
unfolding opbuffer_remove
opbuffer_remove-IsValid v = ground arith
