-- ===== src/Helper/Publish.antt =====
-- update_intermediate_layer publishes one operation of the array in the intermediate layer.
use hosk.Base.{
  ℕ, ◌+◌, ◌<◌, ◌≡◌, refl, sym, ◌∙◌, ◌≢◌, ◌⊎◌, inl, inr, ◌↔◌, Bool, true, false, none, some, arith,
  ℕ_discrete, Bool-cases, ==_true, ==_false,
}
use hosk.Enclave.{Ptr, Op}
use hosk.Skiplist.{Node, Mnode, Heap, Run, null, ok, load_node}
use hosk.Skiplist.Upper.{Memory, load_mnode, store_mnode, mnode_new}
use hosk.Index.{IsSkiplist}
use hosk.Index.Search.{At, load_mnode-ok, index_search-finds, mnode_search-At}
use hosk.Helper.{update_mnode, update_intermediate_layer}
use hosk.Helper.Update.{
  Tracks, Sets, marked, marked-IsSkiplist, marked-Sets, same-Sets, missing-Sets, missing, added,
  added-IsSkiplist, added-Sets,
}

-- The key's mark afterwards: an insert leaves the key unmarked, a remove marks it if it was there.
abbrev pub Outcome : Heap → Op → Bool → Type 0
Outcome h job b =
    ((job.node ≢ null) × (b ≡ false))
    ⊎ ((job.node ≡ null) × (b ≡ true) × ((c : Bool) × Tracks h job.key c))

abbrev pub Published : (Ptr → ℕ) → Ptr → Heap → Op → Run (Unit {0}) → Type 0
Published height sentinel h job r =
    (h' : Heap) × (r ≡ ok tt h')
    × IsSkiplist height sentinel h'
    × (h' ≡ record h { mnodes = h'.mnodes })
    × Sets h h' job.key (Outcome h job)

-- The node of an insert is a node of the data layer with the key.
abbrev pub IsJob : Heap → Op → Type 0
IsJob h job = job.node ≢ null → (n : Node) × (h.nodes job.node ≡ some n) × (n.key ≡ job.key)

-- The contract of the allocator: it returns the address of no other node.
abbrev pub Allocates : Memory → Heap → Type 0
Allocates mem h = (mem.nalloc h ≢ null) × (h.mnodes (mem.nalloc h) ≡ none)

-- The other way to say what is set, by the same marks.
says :
    (h h' : Heap) {key : ℕ} {P Q : Bool → Type 0}
    → ((c : Bool) → P c ↔ Q c)
    → Sets h h' key P
    → Sets h h' key Q
says h h' same sets j c =
    let (to, from) = sets j c in
    (
      λ t. elim (to t) [ inl (z, p) ↦ inl (z, (same c).0 p) | inr r ↦ inr r ],
      elim [ inl (z, p) ↦ from (inl (z, (same c).1 p)) | inr r ↦ from (inr r) ],
    )

module _ (mem : Memory) {height : Ptr → ℕ} {sentinel : Ptr} (h : Heap)
    (whole : IsSkiplist height sentinel h) (job : Op) (is_job : IsJob h job)
    (supply : Allocates mem h) {q : Ptr} {m : Mnode} (at : At h job.key q m) where
  abbrev Ends : Type 0
  Ends = Published height sentinel h job (update_mnode mem job q h)

  Outcome-insert : job.node ≢ null → (c : Bool) → (c ≡ false) ↔ Outcome h job c
  Outcome-insert nz c = (λ e. inl (nz, e), elim [ inl (_, e) ↦ e | inr (z, _, _) ↦ absurd (nz z) ])

  Outcome-remove : job.node ≡ null → m.key ≡ job.key → (c : Bool) → (c ≡ true) ↔ Outcome h job c
  Outcome-remove z same c = (
    λ e. inr (z, e, (m.marked, (q, m, at.here, same, refl))),
    elim [ inl (nz, _) ↦ absurd (nz z) | inr (_, e, _) ↦ e ],
  )

  abbrev new : Ptr
  new = mem.nalloc h

  remove_present : job.node ≡ null → m.key ≡ job.key → Ends
  unfolding update_mnode store_mnode
  remove_present z same = (
    marked h whole at true,
    rw
        (
          load_mnode-ok h whole.index q m at.here,
          ==_true job.node null z,
          ==_true m.key job.key same,
        )
        refl,
    marked-IsSkiplist h whole at true,
    refl,
    says h (marked h whole at true) {P = λ c. c ≡ true} (Outcome-remove z same)
        (marked-Sets h whole at true same),
  )

  remove_missing : job.node ≡ null → m.key ≢ job.key → Ends
  unfolding update_mnode
  remove_missing z differ = (
    h,
    rw
        (
          load_mnode-ok h whole.index q m at.here,
          ==_true job.node null z,
          ==_false m.key job.key differ,
        )
        refl,
    whole,
    refl,
    missing-Sets h whole at (Outcome h job) differ
        λ c o. elim o [ inl (nz, _) ↦ nz z | inr (_, _, (b, t)) ↦ missing h whole at differ b t ],
  )

  insert_marked : job.node ≢ null → m.key ≡ job.key → m.marked ≡ true → Ends
  unfolding update_mnode store_mnode
  insert_marked nz same t = (
    marked h whole at false,
    rw
        (
          load_mnode-ok h whole.index q m at.here,
          ==_false job.node null nz,
          ==_true m.key job.key same,
          t,
        )
        refl,
    marked-IsSkiplist h whole at false,
    refl,
    says h (marked h whole at false) {P = λ c. c ≡ false} (Outcome-insert nz)
        (marked-Sets h whole at false same),
  )

  insert_unmarked : job.node ≢ null → m.key ≡ job.key → m.marked ≡ false → Ends
  unfolding update_mnode
  insert_unmarked nz same f = (
    h,
    rw
        (
          load_mnode-ok h whole.index q m at.here,
          ==_false job.node null nz,
          ==_true m.key job.key same,
          f,
        )
        refl,
    whole,
    refl,
    same-Sets h whole at (Outcome h job) same
        λ c. let (to, from) = Outcome-insert nz c in (λ o. from o ∙ sym f, λ e. to (e ∙ f)),
  )

  insert_missing : job.node ≢ null → m.key ≢ job.key → Ends
  unfolding update_mnode mnode_new store_mnode load_node load_mnode
  insert_missing nz differ =
      let (n, en, kn) = is_job nz in
      let made : Mnode = record {
        next = m.next;
        node = job.node;
        key = n.key;
        level = 0;
        marked = false;
      } in
      (
        added h whole at differ new supply.0 supply.1 made (n, en, refl) kn refl,
        ground (arith, at.here, supply, whole.index.live_mnode q m at.here),
        added-IsSkiplist h whole at differ new supply.0 supply.1 made (n, en, refl) kn refl,
        refl,
        says h (added h whole at differ new supply.0 supply.1 made (n, en, refl) kn refl)
            {P = λ c. c ≡ false} (Outcome-insert nz)
            (added-Sets h whole at differ new supply.0 supply.1 made (n, en, refl) kn refl),
      )

  published : Ends
  published = elim (ℕ_discrete job.node null) [
    | yes z ↦ elim (ℕ_discrete m.key job.key) [
      | yes same ↦ remove_present z same
      | no differ ↦ remove_missing z differ
    ]
    | no nz ↦ elim (ℕ_discrete m.key job.key) [
      | yes same ↦ elim (Bool-cases m.marked) [
        | inl t ↦ insert_marked nz same t
        | inr f ↦ insert_unmarked nz same f
      ]
      | no differ ↦ insert_missing nz differ
    ]
  ]

-- On a skip list, with more fuel than the index is high and the key is large, for a job whose node,
-- if it has one, is a data node with its key, and with an allocator that supplies a new node:
-- update_intermediate_layer ends without a fault; a job with a node leaves its key in the
-- intermediate layer, unmarked; a job without one leaves its key marked if it was there and missing
-- if not; no other key or mark changes, the data layer and the index layer stay as they are, and the
-- three layers still fit together.
pub update_intermediate_layer-Published :
    (mem : Memory) {height : Ptr → ℕ} {sentinel : Ptr} (h : Heap) (fuel : ℕ) (job : Op)
    → IsSkiplist height sentinel h
    → height sentinel + job.key + 1 < fuel
    → IsJob h job
    → Allocates mem h
    → Published height sentinel h job (update_intermediate_layer mem fuel sentinel job h)
unfolding update_intermediate_layer
update_intermediate_layer-Published mem {height} {sentinel} h fuel job whole enough is_job supply =
    let (i, ei, k) = whole.start in
    let (a, m, ra, em, le) =
      index_search-finds h whole.index fuel job.key sentinel i ei whole.used (omega arith)
        (omega arith) in
    let (q, x, rq, at) = mnode_search-At h whole.index fuel job.key a m em le (omega arith) in
    rw (ra, rq) (published mem h whole job is_job supply at)
