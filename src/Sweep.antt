-- ===== src/Sweep.antt =====
-- The passes of src/hosk/helper.cpp over the whole intermediate layer: bg_trav_mnodes, which removes
-- nodes, and reset_index.
pub mod Clear
pub mod Fresh
pub mod Reset
pub mod Loop
pub mod Marks
pub mod Trav
use hosk.Base.{ℕ, zero, suc, ◌+◌, Bool, true, false, not, ◌&&◌, ◌==◌, leb, if◌then◌else◌, ◌%◌, ◌^◌}
use hosk.Enclave.{Ptr}
use hosk.Skiplist.{Cmd, out_of_fuel, pure, ◌>>=◌, ◌>>◌, null, load_node, store_node}
use hosk.Skiplist.Upper.{Memory, load_inode, load_mnode, store_mnode, inode_new}
use hosk.Helper.{bg_mremove}

-- `non_del` and `tall_del` of the enclave, as long as the `int` that holds them does not overflow.
pub record Dels : Type 0 where
  pub non_del : ℕ
  pub tall_del : ℕ

-- The counters, `int` words, after a node that stays.
abbrev pub count_node : Bool → ℕ → Dels → Dels
count_node marked level d =
    if not marked
    then record d { non_del = (d.non_del + 1) % 2 ^ 32 }
    else if leb 1 level
    then record d { tall_del = (d.tall_del + 1) % 2 ^ 32 }
    else d

-- The loop of bg_trav_mnodes, on fuel.
unfoldable pub trav_mnodes : ℕ → Ptr → Ptr → Dels → Cmd Dels
trav_mnodes zero prev node d = λ _. out_of_fuel
trav_mnodes (suc k) prev node d = if node == null then pure d else do
  removed ← bg_mremove prev node
  let next = do p ← load_mnode prev; trav_mnodes k prev p.next d
  let onward = do m ← load_mnode node; trav_mnodes k node m.next (count_node m.marked m.level d)
  if removed then next else onward

unfoldable pub bg_trav_mnodes : ℕ → Ptr → Dels → Cmd Dels
bg_trav_mnodes fuel sentinel d = do
  s ← load_inode sentinel
  p ← load_mnode s.intermed
  trav_mnodes fuel s.intermed p.next d

-- `m->level = m->node->level = l`
unfoldable pub set_levels : ℕ → Ptr → Cmd (Unit {0})
set_levels l p = do
  m ← load_mnode p
  n ← load_node m.node
  store_node m.node (record n { level = l })
  store_mnode p (record m { level = l })

-- The loop of reset_index, on fuel.
unfoldable pub reset_levels : ℕ → Ptr → Cmd (Unit {0})
reset_levels zero p = λ _. out_of_fuel
reset_levels (suc k) p =
    if p == null then pure tt else do set_levels 0 p; m ← load_mnode p; reset_levels k m.next

-- The new sentinel.
unfoldable pub reset_index : Memory → ℕ → Ptr → Cmd Ptr
reset_index mem fuel sentinel = do
  s ← load_inode sentinel
  set_levels 1 s.intermed
  m ← load_mnode s.intermed
  reset_levels fuel m.next
  s' ← load_inode sentinel
  inode_new mem null null s'.intermed
