-- ===== src/Workload/Choices.antt =====
-- The sequence of operations that an application thread chooses, for any results that it gets.
use native.Mathlib.Nat.{mod-eq_of_lt}
use mathlib.Core.Path.{subst}
use hosk.Base.{
  ℕ, ◌+◌, ◌^◌, ◌≤◌, ◌<◌, ◌≡◌, refl, sym, ap, ◌∙◌, ◌≢◌, ℤ, true, false, List, [], ◌∷◌, length, arith,
  if◌then◌else◌,
}
use hosk.Application.{OpType, contains, delete, insert}
use hosk.Workload.{AppParam, AppRes, Loop, choose, settle, update_results, is_negative, bump}

abbrev pub zero_res : AppRes
zero_res = record { add = 0; added = 0; remove = 0; removed = 0; reads = 0; found = 0 }

-- What is counted, for fewer than 2 ^ 64 rounds.
pub record Counts (n : ℕ) (r : AppRes) : Type 0 where
  pub all : r.add + r.remove + r.reads ≡ n
  pub added : r.added ≤ r.add
  pub removed : r.removed ≤ r.remove
  pub found : r.found ≤ r.reads

module _ {Seed : Type 0} (rand_range_re : ℕ → Seed → ℕ × Seed) (params : AppParam) where
  -- The rounds of the loop by the results of their operations.
  unfoldable pub rounds : List ℤ → Loop Seed → Loop Seed
  rounds [] l = l
  rounds (r ∷ rs) l = rounds rs (settle rand_range_re params r (choose rand_range_re params l))

  choose-not_delete :
      (l : Loop Seed)
      → params.alternate ≡ false
      → l.otype ≢ delete
      → ((choose rand_range_re params l).otype ≢ delete)
        × ((choose rand_range_re params l).ares ≡ l.ares)
  unfolding choose
  choose-not_delete l off ne = ground arith

  settle-not_delete :
      (r : ℤ) (l : Loop Seed)
      → l.otype ≢ delete
      → let m = settle rand_range_re params r l in
        (m.otype ≡ l.otype) × (m.ares.remove ≡ l.ares.remove) × (m.ares.removed ≡ l.ares.removed)
  unfolding settle update_results
  settle-not_delete r l ne = ground arith

  -- Without the `alternate` option no round is a delete, whatever the operations return: the counts
  -- of removals never change, if `otype` is not `DELETE` at first.
  pub rounds-never_delete :
      (rs : List ℤ) (l : Loop Seed)
      → params.alternate ≡ false
      → l.otype ≢ delete
      → ((rounds rs l).otype ≢ delete)
        × ((rounds rs l).ares.remove ≡ l.ares.remove)
        × ((rounds rs l).ares.removed ≡ l.ares.removed)
  unfolding rounds
  rounds-never_delete [] l off ne = (ne, refl, refl)
  rounds-never_delete (r ∷ rs) l off ne =
      let c = choose rand_range_re params l in
      let (nd, same) = choose-not_delete l off ne in
      let (so, sr, sd) = settle-not_delete r c nd in
      let (o, a, b) =
        rounds-never_delete rs (settle rand_range_re params r c) off (λ z. nd (sym so ∙ z)) in
      (o, a ∙ sr ∙ ap (λ x. x.remove) same, b ∙ sd ∙ ap (λ x. x.removed) same)

  choose-ares : (l : Loop Seed) → (choose rand_range_re params l).ares ≡ l.ares
  unfolding choose
  choose-ares l = ground arith

  bump-lt : (n : ℕ) → n + 1 < 2 ^ 64 → bump n ≡ n + 1
  bump-lt n h = mod-eq_of_lt h

  update_results-Counts :
      (o : OpType) (n : ℕ) (a : AppRes) (r : ℤ) (key : ℕ) (last : ℤ)
      → n + 1 < 2 ^ 64
      → Counts n a
      → Counts (n + 1) (update_results o a r key last params.alternate).0
  unfolding update_results
  update_results-Counts contains n a r key last small c =
      let e = bump-lt a.reads (omega (arith, c.all)) in
      let f = bump-lt a.found (omega (arith, c.all, c.found)) in
      record {
        all = omega (arith, c.all, e);
        added = c.added;
        removed = c.removed;
        found = ground (arith, c.found, e, f);
      }
  update_results-Counts delete n a r key last small c =
      let e = bump-lt a.remove (omega (arith, c.all)) in
      let f = bump-lt a.removed (omega (arith, c.all, c.removed)) in
      record {
        all = omega (arith, c.all, e);
        added = c.added;
        removed = ground (arith, c.removed, e, f);
        found = c.found;
      }
  update_results-Counts insert n a r key last small c =
      let e = bump-lt a.add (omega (arith, c.all)) in
      let f = bump-lt a.added (omega (arith, c.all, c.added)) in
      record {
        all = omega (arith, c.all, e);
        added = ground (arith, c.added, e, f);
        removed = c.removed;
        found = c.found;
      }

  -- The counters of fewer than 2 ^ 64 rounds from zero: the operations add up to the number of
  -- rounds, and no more succeed than are tried.
  pub rounds-Counts :
      (rs : List ℤ) (n : ℕ) (l : Loop Seed)
      → n + length rs < 2 ^ 64
      → Counts n l.ares
      → Counts (n + length rs) (rounds rs l).ares
  unfolding rounds settle
  rounds-Counts [] n l small c = subst (λ k. Counts k l.ares) (omega arith) c
  rounds-Counts (r ∷ rs) n l small c =
      let chosen = choose rand_range_re params l in
      let start = subst (Counts n) (sym (choose-ares l)) c in
      let next =
        update_results-Counts chosen.otype n chosen.ares r chosen.key chosen.last (omega arith)
          start in
      subst (λ k. Counts k (rounds (r ∷ rs) l).ares) (omega arith)
        (rounds-Counts rs (n + 1) (settle rand_range_re params r chosen) (omega arith) next)

  -- With the `alternate` option: inserts and removals take turns.
  abbrev pub Balanced : Loop Seed → Type 0
  Balanced l = l.ares.removed + (if is_negative l.last then 0 else 1) ≤ l.ares.added

  round-Balanced :
      (r : ℤ) (l : Loop Seed)
      → params.alternate ≡ true
      → params.update ≢ 0
      → l.ares.added + 1 < 2 ^ 64
      → Balanced l
      → Balanced (settle rand_range_re params r (choose rand_range_re params l))
  unfolding choose settle update_results
  round-Balanced r l on some_updates small b =
      ground (arith, bump-lt l.ares.added, bump-lt l.ares.removed)

  round-added :
      (r : ℤ) (l : Loop Seed)
      → l.ares.added + 1 < 2 ^ 64
      → (settle rand_range_re params r (choose rand_range_re params l)).ares.added
        ≤ l.ares.added + 1
  unfolding choose settle update_results
  round-added r l small = ground (arith, bump-lt l.ares.added)

  -- With the `alternate` option and some updates, for fewer than 2 ^ 64 rounds, whatever the
  -- operations return: no more keys are removed than were added, and one less while `last` holds a
  -- key, if it was so at first.
  pub rounds-Balanced :
      (rs : List ℤ) (l : Loop Seed)
      → params.alternate ≡ true
      → params.update ≢ 0
      → l.ares.added + length rs < 2 ^ 64
      → Balanced l
      → Balanced (rounds rs l)
  unfolding rounds
  rounds-Balanced [] l on some_updates small b = b
  rounds-Balanced (r ∷ rs) l on some_updates small b =
      rounds-Balanced rs (settle rand_range_re params r (choose rand_range_re params l)) on
        some_updates (omega (arith, round-added r l))
        (round-Balanced r l on some_updates (omega arith) b)
