-- ===== src/IntSet/Removals.antt =====
-- set_remove takes a value out of the set, unprotected or in a transaction.
use mathlib.Core.Path.{subst}
use hosk.Base.{
  ℕ, ◌≤◌, ◌<◌, ◌≡◌, refl, ◌≢◌, ◌↔◌, Bool, true, false, arith, ℕ_discrete, ==_true, ==_false, leb,
}
use hosk.Enclave.{Ptr}
use hosk.IntSet.{ListNode, Cells, Outcome, Stm, done, val_max, store, free}
use hosk.IntSet.Operations.{set_remove}
use hosk.IntSet.Sorted.{
  Has, IsSorted, IsSequential, Around, is_leb, load-ok, scan_set-Ends, tx_search-Ends,
}
use hosk.IntSet.Neighbours.{found-Has, without_val, without_val-IsSorted, without_val-Has}

-- It says whether the value was there.
abbrev pub Removes : Ptr → Cells → ℕ → Outcome Bool → Type 0
Removes head h val r =
    (b : Bool) × (h' : Cells) × (r ≡ done b h')
    × IsSorted head h'
    × ((b ≡ true) ↔ Has h val)
    × ((j : ℕ) → Has h' j ↔ (Has h j × (j ≢ val)))

module _ (malloc : Cells → Ptr) (stm : Stm) (alone : IsSequential stm) (fuel : ℕ) {head : Ptr}
    (h : Cells) (is : IsSorted head h) (val : ℕ) (some_val : 0 < val) (inside : val < val_max)
    (enough : val < fuel) where
  -- The value is missing.
  remove_missing :
      {r : Outcome Bool} {prev next : Ptr} {n m : ListNode}
      → Around h val prev next n m
      → m.val ≢ val
      → r ≡ done false h
      → Removes head h val r
  remove_missing {m = m} around differ run =
      let none_there : ¬ Has h val =
        (λ has. ground (arith, (found-Has is some_val inside around).1 has)) in
      (
        false,
        h,
        run,
        is,
        (λ e. absurd (ground arith), λ has. absurd (none_there has)),
        λ j. (λ x. (x, λ z. none_there (subst (Has h) z x)), λ (x, _). x),
      )

  remove_found :
      {r : Outcome Bool} {prev next : Ptr} {n m : ListNode} (around : Around h val prev next n m)
      (same : m.val ≡ val)
      → r ≡ done true (without_val is some_val inside around same)
      → Removes head h val r
  remove_found {next = next} {m = m} around same run = (
    true,
    without_val is some_val inside around same,
    run,
    without_val-IsSorted is some_val inside around same,
    (λ _. (next, m, around.here, same), λ _. refl),
    without_val-Has is some_val inside around same,
  )

  pub remove-plain : Removes head h val (set_remove malloc stm fuel 0 head val h)
  unfolding set_remove store free
  remove-plain =
      let (prev, next, n, m, run, around) =
        scan_set-Ends h is val inside malloc stm alone fuel some_val enough in
      elim (ℕ_discrete m.val val) [
        | no differ ↦ remove_missing around differ (rw (run, ==_false m.val val differ) refl)
        | yes same ↦ remove_found around same (
            rw
              (
                run,
                ==_true m.val val same,
                load-ok h is val inside next m around.here,
                load-ok h is val inside prev n around.before,
              )
              refl)
      ]

  pub remove-tx :
      (t : ℕ) → t ≢ 0 → t ≤ 4 → Removes head h val (set_remove malloc stm fuel t head val h)
  unfolding set_remove
  remove-tx t nz le =
      let (prev, next, n, m, run, around) =
        tx_search-Ends h is val inside malloc stm alone fuel (leb t 3) some_val enough in
      elim (ℕ_discrete m.val val) [
        | no differ ↦ remove_missing around differ (
            rw (==_false t 0 nz, is_leb t 4 le, run, ==_false m.val val differ, alone.commit h)
              refl)
        | yes same ↦ remove_found around same (
            rw
              (
                ==_false t 0 nz,
                is_leb t 4 le,
                run,
                ==_true m.val val same,
                alone.load_next next m h (is.live next m around.here) around.here,
                alone.store_next prev m.next n h (is.live prev n around.before) around.before,
                alone.free next,
                alone.commit,
              )
              refl)
      ]
