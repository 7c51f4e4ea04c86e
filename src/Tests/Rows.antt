-- ===== src/Tests/Rows.antt =====
-- A heap with four keys in a row under an index of one node, and the passes over it.
use mathlib.Core.Path.{ap}
use hosk.Base.{
  ℕ, ◌+◌, ◌-◌, ◌*◌, ◌≡◌, ◌≢◌, refl, none, some, false, true, ◌==◌, if◌then◌else◌, arith, ℕ_discrete,
  Option,
}
use hosk.Enclave.{Ptr}
use hosk.Skiplist.{Node, Inode, Mnode, Store, Heap, null, write}
use hosk.Skiplist.Upper.{Memory, place}
use hosk.Application.Layer.{IsLayer}
use hosk.Index.{IsIndex, IsSkiplist}
use hosk.Sweep.{reset_index, bg_trav_mnodes}
use hosk.Sweep.Trav.{Swept, Below}
use hosk.Sweep.Loop.{bg_trav_mnodes-Swept}
use hosk.Sweep.Fresh.{Resets, HasRoom, reset_index-Resets}
use hosk.Levels.{bg_raise_mlevel}
use hosk.Levels.Raise.{Rooms}
use hosk.Levels.Spacing.{Raises, bg_raise_mlevel-Raises}
use hosk.Tests.Heaps
use hosk.Tests.Heaps.{base, heap, top, heap-IsSkiplist}

abbrev pub node_at : ℕ → Node
node_at k = record {
  prev = if k == 0 then 0 else base + 64 * (k - 1);
  next = if k == 3 then 0 else base + 64 * (k + 1);
  val = k;
  key = k;
  level = 0;
}

abbrev mnode_at : ℕ → Mnode
mnode_at k = record {
  next = if k == 3 then 0 else 2000 + 24 * (k + 1);
  node = base + 64 * k;
  key = k;
  level = if k == 0 then 1 else 0;
  marked = false;
}

abbrev pub nodes : Store Node
nodes =
    write
      (write (write (write (λ _. none) base (some (node_at 0))) (base + 64) (some (node_at 1)))
        (base + 128) (some (node_at 2)))
      (base + 192) (some (node_at 3))

abbrev mnodes : Store Mnode
mnodes =
    write
      (write (write (write (λ _. none) 2000 (some (mnode_at 0))) 2024 (some (mnode_at 1))) 2048
        (some (mnode_at 2)))
      2072 (some (mnode_at 3))

abbrev start : Inode
start = record { right = 0; down = 0; intermed = 2000; key = 0 }

abbrev pub row : Heap
row = record { nodes = nodes; inodes = write (λ _. none) 1000 (some start); mnodes = mnodes }

abbrev pub height : Ptr → ℕ
height p = if p == 1000 then 1 else 0

pub row-IsLayer : IsLayer nodes
row-IsLayer = record {
  high = ground arith;
  chain = record {
    unique = ground arith;
    follows = λ p n e ne. elim (ℕ_discrete p base) [
      | yes z ↦ (node_at 1, ground arith, ground arith)
      | no n0 ↦ elim (ℕ_discrete p (base + 64)) [
        | yes z ↦ (node_at 2, ground arith, ground arith)
        | no n1 ↦ (node_at 3, ground arith, ground arith)
      ]
    ];
    goes_on = ground arith;
    least = ground arith;
  };
}

row-IsIndex : IsIndex height row
row-IsIndex = record {
  mnodes = record {
    unique = ground arith;
    follows = λ p n e ne. elim (ℕ_discrete p 2000) [
      | yes z ↦ (mnode_at 1, ground arith, ground arith)
      | no n0 ↦ elim (ℕ_discrete p 2024) [
        | yes z ↦ (mnode_at 2, ground arith, ground arith)
        | no n1 ↦ (mnode_at 3, ground arith, ground arith)
      ]
    ];
    goes_on = ground arith;
    least = ground arith;
  };
  live_mnode = ground arith;
  live_inode = ground arith;
  right = λ p i e used ne. absurd (ground arith);
  down = λ p i e used ne. absurd (ground arith);
  bottom = λ p i e used z. ground arith;
  intermed = λ p i e used. (mnode_at 0, ground arith, ground arith, ground arith);
  node = λ p m e. elim (ℕ_discrete p 2000) [
    | yes z ↦ (node_at 0, ground arith, ground arith)
    | no n0 ↦ elim (ℕ_discrete p 2024) [
      | yes z ↦ (node_at 1, ground arith, ground arith)
      | no n1 ↦ elim (ℕ_discrete p 2048) [
        | yes z ↦ (node_at 2, ground arith, ground arith)
        | no n2 ↦ (node_at 3, ground arith, ground arith)
      ]
    ]
  ];
}

pub row-IsSkiplist : IsSkiplist height 1000 row
row-IsSkiplist = record {
  layer = row-IsLayer;
  index = row-IsIndex;
  start = (start, refl, refl);
  used = omega arith;
  top = λ i m ei em. ground arith;
}

pub row-Below : Below 4 row
row-Below = ground arith

-- The first of two addresses that is free.
abbrev mem : Memory
mem = record {
  malloc = λ h. elim (h.inodes 3000) [ none ↦ 3000 | some _ ↦ 3032 ];
  nalloc = λ h. 0;
  base_malloc = true;
  buf_old = λ h. 0;
}

-- The second address, where the first may be in use.
second_free :
    (y : Heap) (o : Option Inode)
    → y.inodes 3000 ≡ o
    → y.inodes 3032 ≡ none
    → (place mem y ≢ null) × (y.inodes (place mem y) ≡ none)
second_free y none z e = (rw z (omega arith), rw z z)
second_free y (some i) z e = (rw z (omega arith), rw z e)

row-Rooms : Rooms mem 2 row
unfolding Rooms
row-Rooms x inside =
    let u : x.inodes 3000 ≡ none = inside 3000 refl in
    (
      rw u (omega arith),
      rw u u,
      λ y within.
          let (live, free) = second_free y (y.inodes 3000) refl (within 3032 (rw u refl)) in
          (live, free, tt),
    )

bg_raise_mlevel-Raises_example :
    Raises mem 2 4 height 1000 0 false row (bg_raise_mlevel mem 20 2000 1000 row)
bg_raise_mlevel-Raises_example =
    bg_raise_mlevel-Raises mem 20 4 2 row 1000 start (mnode_at 0) row-IsSkiplist row-Below refl
      (omega arith) refl (omega arith) (omega arith) row-Rooms

row-HasRoom : HasRoom mem row
row-HasRoom x same =
    let u : x.inodes 3000 ≡ none = ap (λ s. s 3000) same in (rw u (omega arith), rw u refl)

reset_index-Resets_example : Resets row (reset_index mem 20 1000 row)
reset_index-Resets_example =
    reset_index-Resets mem 20 4 row row-IsSkiplist row-Below (omega arith) row-HasRoom

-- The last node of the heap of Tests/Heaps is marked and has no level.
bg_trav_mnodes-Swept_example :
    Swept Heaps.height top 0 heap
      (bg_trav_mnodes 20 top (record { non_del = 0; tall_del = 0 }) heap)
bg_trav_mnodes-Swept_example =
    bg_trav_mnodes-Swept 20 10 heap (record { non_del = 0; tall_del = 0 }) heap-IsSkiplist
      (ground arith) (omega arith)
