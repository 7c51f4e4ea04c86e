-- ===== src/Tests/TwoRows.antt =====
-- The four keys of Tests/Rows under an index with two rows, and the pass over the lower one.
use hosk.Base.{ℕ, ◌+◌, ◌*◌, refl, none, some, false, ◌==◌, if◌then◌else◌, arith, ℕ_discrete}
use hosk.Enclave.{Ptr}
use hosk.Skiplist.{Inode, Mnode, Store, Heap, write}
use hosk.Index.{IsIndex, IsSkiplist}
use hosk.Sweep.Trav.{Below}
use hosk.Levels.{bg_raise_ilevel}
use hosk.Levels.Row.{RaisesRow, bg_raise_ilevel-RaisesRow}
use hosk.Tests.Heaps.{base}
use hosk.Tests.Rows.{nodes, node_at, row-IsLayer}
use hosk.Tests.Supply.{supply, supply-Rooms}

abbrev mnode_at : ℕ → Mnode
mnode_at k = record {
  next = if k == 3 then 0 else 2000 + 24 * (k + 1);
  node = base + 64 * k;
  key = k;
  level = if k == 0 then 2 else 1;
  marked = false;
}

abbrev inode_at : ℕ → Inode
inode_at k = record {
  right = if k == 3 then 0 else 1008 + 32 * (k + 1);
  down = 0;
  intermed = 2000 + 24 * k;
  key = k;
}

abbrev first : Inode
first = record { right = 0; down = 1008; intermed = 2000; key = 0 }

abbrev mnodes : Store Mnode
mnodes =
    write
      (write (write (write (λ _. none) 2000 (some (mnode_at 0))) 2024 (some (mnode_at 1))) 2048
        (some (mnode_at 2)))
      2072 (some (mnode_at 3))

abbrev inodes : Store Inode
inodes =
    write
      (write
        (write (write (write (λ _. none) 1000 (some first)) 1008 (some (inode_at 0))) 1040
          (some (inode_at 1)))
        1072 (some (inode_at 2)))
      1104 (some (inode_at 3))

abbrev heap : Heap
heap = record { nodes = nodes; inodes = inodes; mnodes = mnodes }

abbrev height : Ptr → ℕ
height p =
    if p == 1000
    then 2
    else if p == 1008
    then 1
    else if p == 1040
    then 1
    else if p == 1072
    then 1
    else if p == 1104
    then 1
    else 0

heap-IsIndex : IsIndex height heap
heap-IsIndex = record {
  mnodes = record {
    unique = ground arith;
    follows = λ p n e ne. elim (ℕ_discrete p 2000) [
      | yes z ↦ (mnode_at 1, ground arith, ground arith)
      | no n0 ↦ elim (ℕ_discrete p 2024) [
        | yes z ↦ (mnode_at 2, ground arith, ground arith)
        | no n1 ↦ (mnode_at 3, ground arith, ground arith)
      ]
    ];
    goes_on = ground arith;
    least = ground arith;
  };
  live_mnode = ground arith;
  live_inode = ground arith;
  right = λ p i e used ne. elim (ℕ_discrete p 1008) [
    | yes z ↦ (inode_at 1, ground arith, ground arith, ground arith)
    | no n0 ↦ elim (ℕ_discrete p 1040) [
      | yes z ↦ (inode_at 2, ground arith, ground arith, ground arith)
      | no n1 ↦ (inode_at 3, ground arith, ground arith, ground arith)
    ]
  ];
  down = λ p i e used ne. (inode_at 0, ground arith, ground arith, ground arith, ground arith);
  bottom = λ p i e used z. ground arith;
  intermed = λ p i e used. elim (ℕ_discrete p 1040) [
    | yes z ↦ (mnode_at 1, ground arith, ground arith, ground arith)
    | no n1 ↦ elim (ℕ_discrete p 1072) [
      | yes z ↦ (mnode_at 2, ground arith, ground arith, ground arith)
      | no n2 ↦ elim (ℕ_discrete p 1104) [
        | yes z ↦ (mnode_at 3, ground arith, ground arith, ground arith)
        | no n3 ↦ (mnode_at 0, ground arith, ground arith, ground arith)
      ]
    ]
  ];
  node = λ p m e. elim (ℕ_discrete p 2000) [
    | yes z ↦ (node_at 0, ground arith, ground arith)
    | no n0 ↦ elim (ℕ_discrete p 2024) [
      | yes z ↦ (node_at 1, ground arith, ground arith)
      | no n1 ↦ elim (ℕ_discrete p 2048) [
        | yes z ↦ (node_at 2, ground arith, ground arith)
        | no n2 ↦ (node_at 3, ground arith, ground arith)
      ]
    ]
  ];
}

heap-IsSkiplist : IsSkiplist height 1000 heap
heap-IsSkiplist = record {
  layer = row-IsLayer;
  index = heap-IsIndex;
  start = (first, refl, refl);
  used = omega arith;
  top = λ i m ei em. ground arith;
}

heap-Below : Below 4 heap
heap-Below = ground arith

bg_raise_ilevel-RaisesRow_example :
    RaisesRow (supply 2) 2 4 1 height 1000 heap (bg_raise_ilevel (supply 2) 20 1008 1000 1 heap)
bg_raise_ilevel-RaisesRow_example =
    bg_raise_ilevel-RaisesRow (supply 2) 20 4 1 2 heap 1008 1000 (inode_at 0) first heap-IsSkiplist
      heap-Below (omega arith) refl refl refl refl (omega arith) (omega arith) (omega arith)
      (supply-Rooms 2 heap (λ i lt. ground arith))
