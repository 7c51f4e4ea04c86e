-- ===== src/Tests/Updates.antt =====
-- A pass of update_index_layer over the four keys of Tests/Rows.
use hosk.Base.{◌≡◌, false, refl, sym, ◌∙◌, arith}
use mathlib.Core.Path.{subst}
use hosk.Skiplist.{Heap, ok}
use hosk.Skiplist.Upper.{load_inode, load_mnode}
use hosk.Helper.{bg_mremove}
use hosk.Sweep.{Dels, bg_trav_mnodes, trav_mnodes}
use hosk.System.Reached.{ok-injective}
use hosk.Background.{update_index_layer, asks_lower}
use hosk.Background.Update.{Updates, update_index_layer-Updates}
use hosk.Tests.Rows.{row, height, row-IsSkiplist, row-Below}
use hosk.Tests.Supply.{supply, supply-Rooms}

abbrev no_dels : Dels
no_dels = record { non_del = 0; tall_del = 0 }

sweep_row : bg_trav_mnodes 20 1000 no_dels row ≡ ok (record { non_del = 3; tall_del = 0 }) row
unfolding bg_trav_mnodes trav_mnodes bg_mremove load_inode load_mnode
sweep_row = refl

few_tall :
    (d : Dels) (h : Heap) → bg_trav_mnodes 20 1000 no_dels row ≡ ok d h → asks_lower d ≡ false
few_tall d h run =
    let (same, _) = ok-injective (sym sweep_row ∙ run) in
    subst (λ x. asks_lower x ≡ false) same refl

update_index_layer-Updates_example :
    Updates
      (supply 10)
      20
      height
      1000
      no_dels
      row
      (update_index_layer (supply 10) 20 1000 no_dels row)
update_index_layer-Updates_example =
    update_index_layer-Updates (supply 10) 20 4 10 0 no_dels row row-IsSkiplist refl (omega arith)
      row-Below (omega arith) (omega arith) (omega arith)
      (supply-Rooms 10 row (λ i lt. ground arith)) few_tall
