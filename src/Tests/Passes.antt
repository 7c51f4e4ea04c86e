-- ===== src/Tests/Passes.antt =====
-- Runs of whole passes: update_index_layer, and Harris' list.
use hosk.Base.{◌≡◌, refl, Option, none, some, Bool, true, false, ◌^◌}
use hosk.Enclave.{Ptr}
use hosk.Skiplist.{Mnode, Inode, Heap, Run, ok, load_node, store_node}
use hosk.Skiplist.Upper.{Memory, load_inode, load_mnode, store_inode, store_mnode, inode_new}
use hosk.Helper.{bg_mremove}
use hosk.Sweep.{Dels, bg_trav_mnodes, trav_mnodes}
use hosk.Levels.{
  find_above, add_above, raise_mnodes, bg_raise_mlevel, skip_marked, raise_inodes, bg_raise_ilevel,
  lower_level, free_level, bg_lower_ilevel,
}
use hosk.Background.{
  raise_bottom, first_inodes, add_level, raise_levels, second_level, update_index_layer,
}
use hosk.IntSet.{Cells, Outcome, done, load, store, new_node}
use hosk.IntSet.Harris.{
  is_marked_ref, unset_mark, set_mark, get_unmarked_ref, get_marked_ref, cas_ref, find_nodes,
  search_again, harris_search, harris_find, harris_insert, mark_node, harris_delete,
}
use hosk.Tests.Rows.{row}
use hosk.Tests.Lists.{cells, direct}

-- The first free one of three addresses.
abbrev pick : Heap → Ptr
pick h = elim (h.inodes 3000) [
  | none ↦ 3000
  | some _ ↦ elim (h.inodes 3032) [ none ↦ 3032 | some _ ↦ 3064 ]
]

abbrev mem : Memory
mem = record { malloc = pick; nalloc = pick; base_malloc = true; buf_old = λ h. 0 }

-- The sentinel, its level, and the index nodes at the old one and at the two new ones.
abbrev summary :
    Run (Ptr × Dels) → Option (Ptr × Option Mnode × Option Inode × Option Inode × Option Inode)
summary (ok (p, d) h) = some (p, h.mnodes 2000, h.inodes 1000, h.inodes 3000, h.inodes 3032)
summary _ = none

-- A row of four nodes gets an index node over the third and a second level.
pass_over_row :
    summary (update_index_layer mem 20 1000 (record { non_del = 0; tall_del = 0 }) row)
    ≡ some (
      3032,
      some (record { next = 2024; node = 2 ^ 32; key = 0; level = 2; marked = false }),
      some (record { right = 3000; down = 0; intermed = 2000; key = 0 }),
      some (record { right = 0; down = 0; intermed = 2048; key = 2 }),
      some (record { right = 0; down = 1000; intermed = 2000; key = 0 }),
    )
unfolding update_index_layer raise_bottom bg_trav_mnodes trav_mnodes bg_mremove load_inode
    load_mnode load_node store_inode store_mnode store_node inode_new first_inodes add_level
    raise_levels second_level bg_raise_mlevel raise_mnodes find_above add_above bg_raise_ilevel
    raise_inodes skip_marked bg_lower_ilevel lower_level free_level
pass_over_row = refl

abbrev result : Outcome Bool → Option Bool
result (done b h) = some b
result _ = none

abbrev cells_after : Outcome Bool → Cells
cells_after (done b h) = h
cells_after _ = λ _. none

-- Harris' list adds a value once, finds it, and no longer finds one that it removed.
abbrev with_five : Outcome Bool
with_five = harris_insert (λ h. 80) direct 20 32 5 32 cells

abbrev without_seven : Outcome Bool
without_seven = harris_delete 20 32 7 (cells_after with_five)

runs_of_harris :
    (result with_five ≡ some true)
    × (result (harris_find 20 32 5 (cells_after with_five)) ≡ some true)
    × (result (harris_insert (λ h. 96) direct 20 32 5 32 (cells_after with_five)) ≡ some false)
    × (result without_seven ≡ some true)
    × (result (harris_find 20 32 7 (cells_after without_seven)) ≡ some false)
    × (result (harris_delete 20 32 7 (cells_after without_seven)) ≡ some false)
unfolding harris_insert harris_find harris_delete harris_search search_again find_nodes mark_node
    cas_ref is_marked_ref unset_mark set_mark get_unmarked_ref get_marked_ref load store new_node
runs_of_harris = (refl, refl, refl, refl, refl, refl)
