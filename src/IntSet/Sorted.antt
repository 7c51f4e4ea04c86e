-- ===== src/IntSet/Sorted.antt =====
-- The sorted list of the integer set: what it stands for, and where the loops that search it end.
use hosk.Base.{
  ℕ, zero, suc, ◌-◌, ◌≤◌, ◌<◌, ◌≡◌, refl, ◌≢◌, Bool, true, false, none, some, arith, dec_lt, leb,
  lt→ltb, ltb-false,
}
use hosk.Enclave.{Ptr}
use hosk.Skiplist.{null, write}
use hosk.Chain.{IsChain}
use hosk.IntSet.{ListNode, Cells, Outcome, Stm, done, val_max, load}
use hosk.IntSet.Operations.{scan, tx_scan, scan_set, tx_search}

abbrev pub node_val : ListNode → ℕ
node_val n = n.val

abbrev pub node_next : ListNode → Ptr
node_next n = n.next

abbrev pub Has : Cells → ℕ → Type 0
Has h j = (p : Ptr) × (n : ListNode) × (h p ≡ some n) × (n.val ≡ j)

not_leb : (a b : ℕ) → b < a → leb a b ≡ false
not_leb a b lt = ground arith

pub is_leb : (a b : ℕ) → a ≤ b → leb a b ≡ true
is_leb a b le = ground arith

-- The list between its two outer nodes.
pub record IsSorted (head : Ptr) (h : Cells) : Type 0 where
  pub chain : IsChain node_val node_next h
  pub live : (p : Ptr) (n : ListNode) → h p ≡ some n → p ≢ null
  pub first : (n : ListNode) × (h head ≡ some n) × (n.val ≡ 0)
  pub last : Has h val_max

-- A transaction that runs alone reads and writes the memory.
pub record IsSequential (stm : Stm) : Type 0 where
  pub start : (b : Bool) (h : Cells) → stm.stm_start b h ≡ done tt h
  pub load_val :
      (p : Ptr) (n : ListNode) (h : Cells)
      → p ≢ null
      → h p ≡ some n
      → stm.stm_load_val p h ≡ done n.val h
  pub load_next :
      (p : Ptr) (n : ListNode) (h : Cells)
      → p ≢ null
      → h p ≡ some n
      → stm.stm_load_next p h ≡ done n.next h
  pub store_next :
      (p q : Ptr) (n : ListNode) (h : Cells)
      → p ≢ null
      → h p ≡ some n
      → stm.stm_store_next p q h ≡ done tt (write h p (some (record n { next = q })))
  pub free : (p : Ptr) (h : Cells) → stm.stm_free p h ≡ done tt (write h p none)
  pub commit : (h : Cells) → stm.stm_commit h ≡ done tt h

-- Two neighbours with the value between them, or at the second.
pub record Around (h : Cells) (val : ℕ) (prev next : Ptr) (n m : ListNode) : Type 0 where
  pub before : h prev ≡ some n
  pub below : n.val < val
  pub leads : n.next ≡ next
  pub here : h next ≡ some m
  pub reaches : val ≤ m.val

abbrev pub Ends : Cells → ℕ → Outcome (Ptr × Ptr × ℕ) → Type 0
Ends h val r =
    (prev next : Ptr) × (n m : ListNode) × (r ≡ done (prev, next, m.val) h)
    × Around h val prev next n m

module _ {head : Ptr} (h : Cells) (is : IsSorted head h) (val : ℕ) (inside : val < val_max) where
  pub load-ok : (p : Ptr) (n : ListNode) → h p ≡ some n → load p h ≡ done n h
  unfolding load
  load-ok p n e = ground (arith, is.live p n e)

  -- There is a next node.
  successor :
      (p : Ptr) (n : ListNode)
      → h p ≡ some n
      → n.val < val
      → (m : ListNode) × (h n.next ≡ some m) × (n.val < m.val)
  successor p n e below =
      let (q, x, ex, top) = is.last in
      is.chain.follows p n e (is.chain.goes_on p q n x e ex (omega arith))

  scan-Ends :
      (fuel : ℕ) (prev : Ptr) (n : ListNode)
      → h prev ≡ some n
      → n.val < val
      → val - n.val < fuel
      → Ends h val (scan fuel val prev n.next h)
  unfolding scan
  scan-Ends zero prev n e below enough = absurd (omega arith)
  scan-Ends (suc k) prev n e below enough =
      let (m, em, up) = successor prev n e below in
      elim (dec_lt m.val val) [
        | yes lt ↦
            let (p, q, x, y, run, around) = scan-Ends k n.next m em lt (omega arith) in
            (p, q, x, y, rw (load-ok n.next m em, lt→ltb m.val val lt) run, around)
        | no ge ↦ (
          prev,
          n.next,
          n,
          m,
          rw (load-ok n.next m em, ltb-false m.val val (omega arith)) refl,
          record { before = e; below = below; leads = refl; here = em; reaches = omega arith },
        )
      ]

  module _ (malloc : Cells → Ptr) (stm : Stm) (alone : IsSequential stm) (size : ℕ) where
    tx_scan-Ends :
        (fuel : ℕ) (prev : Ptr) (n : ListNode)
        → h prev ≡ some n
        → n.val < val
        → val - n.val < fuel
        → Ends h val (tx_scan malloc stm size fuel val prev n.next h)
    unfolding tx_scan
    tx_scan-Ends zero prev n e below enough = absurd (omega arith)
    tx_scan-Ends (suc k) prev n e below enough =
        let (m, em, up) = successor prev n e below in
        let live = is.live n.next m em in
        elim (dec_lt m.val val) [
          | yes lt ↦
              let (p, q, x, y, run, around) = tx_scan-Ends k n.next m em lt (omega arith) in
              (
                p,
                q,
                x,
                y,
                rw
                    (
                      alone.load_val n.next m h live em,
                      not_leb val m.val lt,
                      alone.load_next n.next m h live em,
                    )
                    run,
                around,
              )
          | no ge ↦ (
            prev,
            n.next,
            n,
            m,
            rw (alone.load_val n.next m h live em, is_leb val m.val (omega arith)) refl,
            record { before = e; below = below; leads = refl; here = em; reaches = omega arith },
          )
        ]

    pub scan_set-Ends : 0 < val → val < size → Ends h val (scan_set malloc stm size head val h)
    unfolding scan_set
    scan_set-Ends some_val enough =
        let (n, e, low) = is.first in
        rw (load-ok head n e) (scan-Ends size head n e (omega arith) (omega arith))

    pub tx_search-Ends :
        (normal : Bool)
        → 0 < val
        → val < size
        → Ends h val (tx_search malloc stm size normal head val h)
    unfolding tx_search
    tx_search-Ends normal some_val enough =
        let (n, e, low) = is.first in
        rw (alone.start normal h, alone.load_next head n h (is.live head n e) e)
          (tx_scan-Ends size head n e (omega arith) (omega arith))
