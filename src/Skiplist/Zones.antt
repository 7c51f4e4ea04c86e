-- ===== src/Skiplist/Zones.antt =====
-- The address checks of src/hosk/skiplist.cpp, which are compiled in with ADDRESS_CHECKING: whether an
-- access is local to the NUMA node where it is made. `policy` is what get_mempolicy finds for an
-- address, none where it fails.
use hosk.Base.{
  ℕ, ◌+◌, ◌≡◌, ◌⊎◌, inl, inr, ℤ, pos, negsuc, Bool, Option, none, some, List, [], ◌∷◌, arith, ◌==◌,
  if◌then◌else◌, ◌∷◌,
}
use hosk.Enclave.{Ptr}
use hosk.Skiplist.{null}

-- The counters `local` and `foreign`.
abbrev pub Accesses : Type 0
Accesses = ℕ × ℕ

-- The counters after a result of check_addr.
abbrev note_access : Bool → Accesses → ℤ → Accesses
note_access dont_count (local, foreign) (pos n) =
    if n == 1
    then (local, if dont_count then foreign else foreign + 1)
    else if n == 0
    then (local + 1, foreign)
    else (local, foreign)
note_access dont_count (local, foreign) (negsuc _) = (local, foreign)

module _ (policy : Ptr → Option ℕ) where
  -- `none` where the program exits.
  unfoldable pub check_addr : ℕ → Ptr → Option ℤ
  check_addr supposed_node addr = if addr == null then some (negsuc 0) else elim (policy addr) [
    | none ↦ none
    | some actual_node ↦ some (if actual_node == supposed_node then pos 0 else pos 1)
  ]

  unfoldable pub zone_access_check : ℕ → Ptr → Accesses → Bool → Option Accesses
  unfolding check_addr
  zone_access_check node addr counts dont_count = elim (check_addr node addr) [
    | none ↦ none
    | some result ↦ some (note_access dont_count counts result)
  ]

  -- Several accesses, as the traversals make them.
  unfoldable pub check_all : ℕ → List Ptr → Accesses → Bool → Option Accesses
  check_all node [] counts dont_count = some counts
  check_all node (p ∷ ps) counts dont_count = elim (zone_access_check node p counts dont_count) [
    | none ↦ none
    | some counts' ↦ check_all node ps counts' dont_count
  ]

  -- The accesses among a list that are to nodes on `node`, and those that are not.
  unfoldable pub on_node : ℕ → List Ptr → ℕ
  on_node node [] = 0
  on_node node (p ∷ ps) =
      let rest = on_node node ps in
      if p == null
      then rest
      else elim (policy p) [ none ↦ rest | some a ↦ if a == node then rest + 1 else rest ]

  unfoldable pub off_node : ℕ → List Ptr → ℕ
  off_node node [] = 0
  off_node node (p ∷ ps) =
      let rest = off_node node ps in
      if p == null
      then rest
      else elim (policy p) [ none ↦ rest | some a ↦ if a == node then rest else rest + 1 ]

  -- Where get_mempolicy fails for none of the addresses.
  abbrev pub Known : List Ptr → Type 0
  Known [] = Unit {0}
  Known (p ∷ ps) = ((p ≡ null) ⊎ ((n : ℕ) × (policy p ≡ some n))) × Known ps

  -- Over a list of accesses for which get_mempolicy does not fail, the checks count as local just those
  -- of addresses other than `NULL` that are on the node, and as foreign those that are not, or none
  -- where these are not to be counted.
  pub check_all-counts :
      (node : ℕ) (ps : List Ptr) (local foreign : ℕ) (dont_count : Bool)
      → Known ps
      → check_all node ps (local, foreign) dont_count
        ≡ some (local + on_node node ps, if dont_count then foreign else foreign + off_node node ps)
  unfolding check_all zone_access_check check_addr on_node off_node
  check_all-counts node [] local foreign dont_count known = ground arith
  check_all-counts node (p ∷ ps) local foreign dont_count (at, known) = elim at [
    | inl z ↦ ground (arith, check_all-counts node ps local foreign dont_count known)
    | inr (n, e) ↦ ground (
      arith,
      e,
      check_all-counts node ps (local + 1) foreign dont_count known,
      check_all-counts node ps local foreign dont_count known,
      check_all-counts node ps local (foreign + 1) dont_count known,
    )
  ]
