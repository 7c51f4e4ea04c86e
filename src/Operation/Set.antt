-- ===== src/Operation/Set.antt =====
-- The set of keys that the operations stand for.
use hosk.Base.{ℕ, ℤ, pos, ◌≡◌, ◌↔◌, Bool, true, false, List, [], ◌∷◌, ◌==◌, if◌then◌else◌}
use hosk.Skiplist.{Heap}
use hosk.Application.{OpType, contains, delete, insert}
use hosk.Application.Contains.{Has}
use hosk.Operation.{Request}

-- The abstract set, and what an operation does to it and returns.
abbrev pub KeySet : Type 0
KeySet = ℕ → Bool

abbrev pub Represents : KeySet → Heap → Type 0
Represents s h = (j : ℕ) → (s j ≡ true) ↔ Has h.nodes j

abbrev pub put : ℕ → Bool → KeySet → KeySet
put key b s j = if j == key then b else s j

abbrev pub set_op : OpType → ℕ → KeySet → KeySet
set_op contains key s = s
set_op delete key s = put key false s
set_op insert key s = put key true s

abbrev pub result_of : OpType → Bool → ℤ
result_of contains b = if b then pos 1 else pos 0
result_of delete b = if b then pos 1 else pos 0
result_of insert b = if b then pos 0 else pos 1

abbrev pub set_all : List Request → KeySet → KeySet
set_all [] s = s
set_all (r ∷ rs) s = set_all rs (set_op r.op r.key s)

abbrev pub results_of : List Request → KeySet → List ℤ
results_of [] s = []
results_of (r ∷ rs) s = result_of r.op (s r.key) ∷ results_of rs (set_op r.op r.key s)
