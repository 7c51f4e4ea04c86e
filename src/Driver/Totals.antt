-- ===== src/Driver/Totals.antt =====
-- The sums over the application threads' results that the main thread of src/hosk/test.cpp prints.
use hosk.Base.{ℕ, ◌+◌, ◌-◌, ◌%◌, ◌^◌, ◌<◌, ◌≡◌, refl, List, [], ◌∷◌, arith}
use hosk.Workload.{AppRes}

-- The sums in `unsigned long`, less `size`.
pub record Totals : Type 0 where
  pub reads : ℕ
  pub effreads : ℕ
  pub updates : ℕ
  pub adds : ℕ
  pub removes : ℕ
  pub effupds : ℕ

abbrev pub no_totals : Totals
no_totals = record { reads = 0; effreads = 0; updates = 0; adds = 0; removes = 0; effupds = 0 }

-- `a - b`
abbrev minus : ℕ → ℕ → ℕ
minus a b = (a + (2 ^ 64 - b)) % 2 ^ 64

unfoldable pub add_results : AppRes → Totals → Totals
add_results r t = record {
  reads = (t.reads + r.reads) % 2 ^ 64;
  effreads = (t.effreads + (r.reads + minus r.add r.added + minus r.remove r.removed)) % 2 ^ 64;
  updates = (t.updates + (r.add + r.remove)) % 2 ^ 64;
  adds = (t.adds + r.added) % 2 ^ 64;
  removes = (t.removes + r.removed) % 2 ^ 64;
  effupds = (t.effupds + (r.removed + r.added)) % 2 ^ 64;
}

unfoldable pub totals : List AppRes → Totals → Totals
unfolding add_results
totals [] t = t
totals (r ∷ rs) t = totals rs (add_results r t)

-- The sums agree round 2 ^ 64.
abbrev Agree : Totals → Type 0
Agree t =
    ((t.effreads + t.effupds) % 2 ^ 64 ≡ (t.reads + t.updates) % 2 ^ 64)
    × ((t.adds + t.removes) % 2 ^ 64 ≡ t.effupds % 2 ^ 64)

-- The counts of successes are 64-bit words.
abbrev pub Words : List AppRes → Type 0
Words [] = Unit {0}
Words (r ∷ rs) = ((r.added < 2 ^ 64) × (r.removed < 2 ^ 64)) × Words rs

add_results-Agree :
    (r : AppRes) (t : Totals)
    → r.added < 2 ^ 64
    → r.removed < 2 ^ 64
    → Agree t
    → Agree (add_results r t)
unfolding add_results
add_results-Agree r t a b agree = (omega (arith, agree), omega (arith, agree))

totals_from : (rs : List AppRes) (t : Totals) → Words rs → Agree t → Agree (totals rs t)
unfolding totals
totals_from [] t words agree = agree
totals_from (r ∷ rs) t ((a, b), words) agree =
    totals_from rs (add_results r t) words (add_results-Agree r t a b agree)

-- For any results of the threads, with counts that are 64-bit words: effective reads and effective
-- updates together are all operations, round 2 ^ 64, and the effective updates are the successful
-- inserts and removals.
pub totals-Agree :
    (rs : List AppRes)
    → Words rs
    → let t = totals rs no_totals in
      ((t.effreads + t.effupds) % 2 ^ 64 ≡ (t.reads + t.updates) % 2 ^ 64)
      × ((t.adds + t.removes) % 2 ^ 64 ≡ t.effupds % 2 ^ 64)
totals-Agree rs words = totals_from rs no_totals words (refl, refl)
