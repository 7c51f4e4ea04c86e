-- ===== src/Layout.antt =====
-- get_hardware_layout of src/hosk/hardware_layout.cpp: how the hardware threads are given to the
-- sockets and cores. The numbers that it reads from lscpu are arguments.
pub mod Places
use hosk.Base.{
  ℕ, zero, suc, ◌+◌, ◌*◌, ◌%◌, Bool, true, false, ◌&&◌, ◌||◌, not, Option, none, some, List, [],
  ◌∷◌, ◌==◌, ltb, if◌then◌else◌,
}

-- `csocket`, `ccore` and `cphysical`.
pub record Cursor : Type 0 where
  pub socket : ℕ
  pub core : ℕ
  pub physical : ℕ

-- The end of a round of the loop.
unfoldable pub advance : ℕ → ℕ → Cursor → Cursor
advance socket_num cores_per_socket c =
    if (c.core + 1) % cores_per_socket == 0
    then if (c.socket + 1) % socket_num == 0
      then record { socket = 0; core = 0; physical = c.physical + 1 }
      else record c { socket = c.socket + 1; core = 0 }
    else record c { core = c.core + 1 }

-- A hardware thread and its place: `sockets[socket].cores[core].hwthread_id[physical] = pnum`.
pub record Place : Type 0 where
  pub pnum : ℕ
  pub place : Cursor

-- The rounds from `pnum` on, `left` of them; `none` where the program reports an error and exits.
-- THREADS_PER_CORE is 2.
unfoldable pub place_all : ℕ → ℕ → ℕ → ℕ → Cursor → Option (List Place)
unfolding advance
place_all socket_num cores_per_socket zero pnum c = some []
place_all socket_num cores_per_socket (suc left) pnum c =
    let c' = advance socket_num cores_per_socket c in
    let rest = place_all socket_num cores_per_socket left (pnum + 1) c' in
    if (c'.physical == 2) && not (left == 0)
    then none
    else elim rest [ none ↦ none | some ps ↦ some (record { pnum = pnum; place = c } ∷ ps) ]

-- `ht_enabled`: `lscpu | grep ht` gives some text.
unfoldable pub get_hardware_layout : Bool → ℕ → ℕ → ℕ → ℕ → Option (List Place)
unfolding place_all
get_hardware_layout ht_enabled threads_per_core socket_num cores_per_socket max_cpu_num =
    let num_hw_cpus = socket_num * cores_per_socket * threads_per_core in
    if not ht_enabled || not (threads_per_core == 2)
    then none
    else if not (num_hw_cpus == max_cpu_num)
    then none
    else place_all socket_num cores_per_socket num_hw_cpus 0
        (record { socket = 0; core = 0; physical = 0 })
