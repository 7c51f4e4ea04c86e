-- ===== src/Enclave.antt =====
-- The enclave object of src/hosk/enclave.h and src/hosk/enclave.cpp: its fields, its constructor,
-- the methods that start and stop its two threads, and the circular array of operations that the
-- application thread fills and the helper thread drains. Threads are created and joined by the
-- pthread library: a method appends the calls that it makes to a log.
pub mod OpBuffer
pub mod Threads
use hosk.Base.{
  ℕ, zero, suc, ◌+◌, ◌%◌, ◌≡◌, Bool, true, false, not, Option, none, some, List, [], ◌∷◌, ◌++◌,
  ◌==◌, leb, if◌then◌else◌, get_or, set, replicate,
}

-- An address; 0 is `NULL`.
abbrev pub Ptr : Type 0
Ptr = ℕ

-- `op_t`: a `node` of `NULL` means that the operation was a remove.
pub record Op : Type 0 where
  pub key : ℕ
  pub node : Ptr

abbrev pub no_op : Op
no_op = record { key = 0; node = 0 }

-- `core_t`: the hardware threads of the application and of the helper.
pub record Core : Type 0 where
  pub app : ℕ
  pub hlp : ℕ

-- A call to the pthread library.
pub data Call : Type 0 where
  create_helper join_helper create_application join_application create_populate : Call

pub record Enclave : Type 0 where
  pub sentinel : Ptr
  pub opbuffer : List Op
  pub enclave_num : ℕ
  pub core : Core
  pub socket_num : ℕ
  pub buf_size : ℕ
  pub app_idx : ℕ
  pub hlp_idx : ℕ
  pub running : Bool
  pub aparams : Ptr
  pub iparams : Ptr
  pub non_del : ℕ
  pub tall_del : ℕ
  pub update_seed : ℕ
  pub update_freq : ℕ
  pub num_populate : ℕ
  pub finished : Bool
  pub reset_index : Bool
  pub populate_init : Bool
  pub calls : List Call  -- the pthread calls made so far

-- The constructor; `seed` is what `rand` returns.
unfoldable pub new_enclave : Core → ℕ → Ptr → ℕ → ℕ → ℕ → ℕ → Enclave
new_enclave c sock s freq e_num bsz seed = record {
  sentinel = s;
  opbuffer = replicate bsz no_op;
  enclave_num = e_num;
  core = c;
  socket_num = sock;
  buf_size = bsz;
  app_idx = 0;
  hlp_idx = 0;
  running = false;
  aparams = 0;
  iparams = 0;
  non_del = 0;
  tall_del = 0;
  update_seed = seed;
  update_freq = freq;
  num_populate = 0;
  finished = false;
  reset_index = false;
  populate_init = false;
  calls = [];
}

abbrev call : Enclave → Call → Enclave
call e c = record e { calls = e.calls ++ c ∷ [] }

unfoldable pub start_helper : Bool → Enclave → Enclave
start_helper pop_all e =
    if e.running
    then e
    else call (record e { populate_init = pop_all; running = true; finished = false }) create_helper

unfoldable pub stop_helper : Enclave → Enclave
stop_helper e =
    if e.running
    then record (call (record e { finished = true }) join_helper) { running = false }
    else e

unfoldable pub start_application : Ptr → Enclave → Enclave
start_application init e = call (record e { aparams = init }) create_application

-- The result of the joined thread, a pointer that pthread_join stores, is left out.
unfoldable pub stop_application : Enclave → Enclave
stop_application e = call e join_application

unfoldable pub delete_enclave : Enclave → Enclave
unfolding stop_helper stop_application
delete_enclave e =
    if e.finished then e else stop_application (stop_helper (record e { finished = true }))

unfoldable pub set_sentinel : Ptr → Enclave → Ptr × Enclave
set_sentinel s e = (s, record e { sentinel = s })

unfoldable pub get_sentinel : Enclave → Ptr
get_sentinel e = e.sentinel

unfoldable pub get_enclave_num : Enclave → ℕ
get_enclave_num e = e.enclave_num

unfoldable pub get_socket_num : Enclave → ℕ
get_socket_num e = e.socket_num

-- `idx` is APP_IDX, 0, or HLP_IDX, 1.
unfoldable pub get_thread_id : ℕ → Enclave → ℕ
get_thread_id idx e = if idx == 0 then e.core.app else e.core.hlp

unfoldable pub populate_begin : Ptr → ℕ → Enclave → Enclave
populate_begin params num e =
    call (record e { iparams = params; num_populate = num }) create_populate

-- `last p` is what stands at the `last` field of the parameters at `p`, once the thread has ended.
unfoldable pub populate_end : (Ptr → ℕ) → Enclave → ℕ × Enclave
populate_end last e = (last e.iparams, call e join_application)

unfoldable pub reset_index_layer : Enclave → Enclave
reset_index_layer e = record e { reset_index = true }

-- False if the array is full.
unfoldable pub opbuffer_insert : ℕ → Ptr → Enclave → Bool × Enclave
opbuffer_insert key node e = if (e.app_idx + 1) % e.buf_size == e.hlp_idx then (false, e) else (
  true,
  record e {
    opbuffer = set e.opbuffer e.app_idx (record { key = key; node = node });
    app_idx = (e.app_idx + 1) % e.buf_size;
  },
)

-- The source subtracts in `int`: `a - b <= 1` is `a ≤ b + 1`.
unfoldable pub opbuffer_remove : Enclave → Option Op × Enclave
opbuffer_remove e = if leb e.app_idx ((e.hlp_idx + 1) % e.buf_size + 1) then (none, e) else (
  some (get_or e.opbuffer e.hlp_idx no_op),
  record e { hlp_idx = (e.hlp_idx + 1) % e.buf_size },
)
