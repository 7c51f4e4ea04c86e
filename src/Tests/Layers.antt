-- ===== src/Tests/Layers.antt =====
-- Runs on a data layer with the sentinel and two nodes, one of them logically deleted.
use hosk.Base.{◌≡◌, ◌⊎◌, refl, pos, arith}
use hosk.Enclave.{Ptr}
use hosk.Skiplist.{Heap, ok}
use hosk.Application.{contains, delete, insert, traverse_data}
use hosk.Application.Contains.{Has, traverse_data-contains}
use hosk.Application.Delete.{Deleted, traverse_data-delete}
use hosk.Application.Insert.{Inserted, traverse_data-insert}
use hosk.Tests.Heaps.{base, sentinel, nodes, heap, heap-IsLayer, malloc}

traverse_data-contains_example :
    let r = traverse_data malloc 20 contains 7 7 base sentinel.prev heap in
    ((r ≡ ok (pos 1, 0) heap) × Has nodes 7) ⊎ ((r ≡ ok (pos 0, 0) heap) × ¬ Has nodes 7)
traverse_data-contains_example =
    traverse_data-contains malloc heap 20 7 7 base sentinel 0 heap-IsLayer refl (omega arith)
      (omega arith)

traverse_data-delete_example :
    let r = traverse_data malloc 20 delete 5 5 base 0 heap in
    ((h' : Heap) × (r ≡ ok (pos 1, 0) h') × Deleted heap 5 h')
    ⊎ ((r ≡ ok (pos 0, 0) heap) × ¬ Has nodes 5)
traverse_data-delete_example =
    traverse_data-delete malloc heap 20 5 5 base sentinel 0 heap-IsLayer refl (omega arith)
      (omega arith)

traverse_data-insert_example :
    let r = traverse_data malloc 20 insert 7 7 base 0 heap in
    ((h' : Heap) × (q : Ptr) × (r ≡ ok (pos 1, q) h') × Inserted heap 7 7 h' q)
    ⊎ ((r ≡ ok (pos 0, 0) heap) × Has nodes 7)
traverse_data-insert_example =
    traverse_data-insert malloc heap 20 7 7 base sentinel 0 heap-IsLayer refl (omega arith)
      (omega arith) (omega arith) (omega arith) (omega arith, refl)
