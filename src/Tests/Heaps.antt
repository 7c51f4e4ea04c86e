-- ===== src/Tests/Heaps.antt =====
-- A heap with the sentinel and two nodes, one of them logically deleted, under an intermediate layer
-- with their keys and an index of two levels.
use hosk.Base.{
  ℕ, ◌+◌, ◌^◌, ◌<◌, ◌≡◌, ◌≢◌, refl, none, some, false, true, ◌==◌, if◌then◌else◌, arith, ℕ_discrete,
}
use hosk.Enclave.{Ptr}
use hosk.Skiplist.{Node, Inode, Mnode, Store, Heap, null, write}
use hosk.Application.Layer.{IsLayer}
use hosk.Index.{IsIndex, IsSkiplist}
use hosk.Operation.Set.{KeySet, Represents}

abbrev pub base : Ptr
base = 2 ^ 32

abbrev pub sentinel : Node
sentinel = record { prev = 0; next = base + 64; val = 0; key = 0; level = 1 }

abbrev five : Node
five = record { prev = base; next = base + 128; val = 5; key = 5; level = 0 }

abbrev pub nine : Node
nine = record { prev = base + 64; next = 0; val = 0; key = 9; level = 0 }

abbrev pub nodes : Store Node
nodes =
    write (write (write (λ _. none) base (some sentinel)) (base + 64) (some five)) (base + 128)
      (some nine)

-- The index node where every search begins.
abbrev pub top : Ptr
top = 1000

abbrev inodes : Store Inode
inodes =
    write
      (write
        (write (λ _. none) top (some (record { right = 0; down = 1008; intermed = 2000; key = 0 })))
        1008 (some (record { right = 1016; down = 0; intermed = 2000; key = 0 })))
      1016 (some (record { right = 0; down = 0; intermed = 2024; key = 5 }))

abbrev first : Mnode
first = record { next = 2024; node = base; key = 0; level = 2; marked = false }

abbrev pub second : Mnode
second = record { next = 2048; node = base + 64; key = 5; level = 1; marked = false }

abbrev third : Mnode
third = record { next = 0; node = base + 128; key = 9; level = 0; marked = true }

abbrev mnodes : Store Mnode
mnodes = write (write (write (λ _. none) 2000 (some first)) 2024 (some second)) 2048 (some third)

abbrev pub height : Ptr → ℕ
height p = if p == top then 2 else if p == 1008 then 1 else if p == 1016 then 1 else 0

abbrev pub heap : Heap
heap = record { nodes = nodes; inodes = inodes; mnodes = mnodes }

abbrev pub malloc : Heap → Ptr
malloc h = elim (h.nodes (base + 192)) [ none ↦ base + 192 | some _ ↦ base + 256 ]

heap_follows :
    (p : Ptr) (n : Node)
    → nodes p ≡ some n
    → n.next ≢ null
    → (x : Node) × (nodes n.next ≡ some x) × (n.key < x.key)
heap_follows p n e ne = elim (ℕ_discrete p base) [
  | yes z ↦ (five, ground arith, ground arith)
  | no nz ↦ (nine, ground arith, ground arith)
]

pub heap-IsLayer : IsLayer nodes
heap-IsLayer = record {
  high = ground arith;
  chain = record {
    unique = ground arith;
    follows = heap_follows;
    goes_on = ground arith;
    least = ground arith;
  };
}

heap-IsIndex : IsIndex height heap
heap-IsIndex = record {
  mnodes = record {
    unique = ground arith;
    follows = λ p n e ne. elim (ℕ_discrete p 2000) [
      | yes z ↦ (second, ground arith, ground arith)
      | no nz ↦ (third, ground arith, ground arith)
    ];
    goes_on = ground arith;
    least = ground arith;
  };
  live_mnode = ground arith;
  live_inode = ground arith;
  right = λ p i e used ne. (
    record { right = 0; down = 0; intermed = 2024; key = 5 },
    ground arith,
    ground arith,
    ground arith,
  );
  down = λ p i e used ne. (
    record { right = 1016; down = 0; intermed = 2000; key = 0 },
    ground arith,
    ground arith,
    ground arith,
    ground arith,
  );
  bottom = λ p i e used z. ground arith;
  intermed = λ p i e used. elim (ℕ_discrete p 1016) [
    | yes z ↦ (second, ground arith, ground arith, ground arith)
    | no nz ↦ (first, ground arith, ground arith, ground arith)
  ];
  node = λ p m e. elim (ℕ_discrete p 2000) [
    | yes z ↦ (sentinel, ground arith, ground arith)
    | no nz ↦ elim (ℕ_discrete p 2024) [
      | yes z ↦ (five, ground arith, ground arith)
      | no nw ↦ (nine, ground arith, ground arith)
    ]
  ];
}

pub heap-IsSkiplist : IsSkiplist height top heap
heap-IsSkiplist = record {
  layer = heap-IsLayer;
  index = heap-IsIndex;
  start = (record { right = 0; down = 1008; intermed = 2000; key = 0 }, refl, refl);
  used = omega arith;
  top = λ i m ei em. ground arith;
}

-- The set that the heap stands for.
abbrev pub keys : KeySet
keys j = j == 5

pub heap-Represents : Represents keys heap
heap-Represents j = (
  λ t. (5, (base + 64, five, refl, ground arith, refl, ground arith)),
  λ (v, (p, n, e, k, ev, nz)). ground arith,
)
