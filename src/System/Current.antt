-- ===== src/System/Current.antt =====
-- With one enclave, the intermediate layer and the operations that wait for the helper make up the
-- set, whatever the two threads do.
use mathlib.Core.Path.{ap, subst}
use hosk.Base.{
  ℕ, ◌<◌, ◌≡◌, refl, sym, ◌∙◌, ◌≢◌, ◌⊎◌, ◌↔◌, inl, inr, true, false, arith, List, [], ◌∷◌, ◌++◌,
  Option, ==_true,
}
use hosk.Enclave.{Ptr, Op, Enclave, opbuffer_insert}
use hosk.Enclave.OpBuffer.{IsValid}
use hosk.Application.{delete, insert}
use hosk.Skiplist.{Heap, null}
use hosk.Skiplist.Upper.{Memory}
use hosk.Operation.{Request}
use hosk.Operation.Set.{KeySet, set_op, set_all}
use hosk.Workload.{AppParam, Loop, choose}
use hosk.Workload.Iteration.{changes}
use hosk.System.{
  Zone, State, heap_of, after, Limits, Step, work, publish, update, updated, reset, Steps, done,
  more,
}
use hosk.System.Sound.{IsSound}
use hosk.System.Rounds.{after_round-cases, work-done}
use hosk.System.Pieces.{publish-done, update-done, reset-done}
use hosk.System.Reached.{ok-injective, set_step, set_steps, Step-IsSound, Steps-IsSound}
use hosk.System.Pending.{waiting, IsBehind, insert-waiting, insert_parts, remove-waiting}
use hosk.System.View.{
  IsCurrent, show, show_all, show_all-snoc, show_all-same, unmarked, no_change, shows,
  publish-unmarked,
}

trans : {A B C : Type 0} → A ↔ B → B ↔ C → A ↔ C
trans (f, g) (f', g') = (λ x. f' (f x), λ y. g (g' y))

flip : {A B : Type 0} → A ↔ B → B ↔ A
flip (f, g) = (g, f)

-- The same view under another enclave object and another layer with the same unmarked keys.
same-IsCurrent :
    (set : KeySet) (h h' : Heap) (e e' : Enclave)
    → IsCurrent set h e
    → waiting e' ≡ waiting e
    → IsBehind e'.buf_size e'.hlp_idx
    → ((j : ℕ) → unmarked h' j ↔ unmarked h j)
    → IsCurrent set h' e'
same-IsCurrent set h h' e e' cur eq behind same = record {
  behind = behind;
  agrees = λ j nz.
      trans (rw eq (show_all-same (waiting e) (unmarked h') (unmarked h) same j)) (cur.agrees j nz);
}

-- The zone after a step of its threads, where it is the only one.
at_zone :
    {Seed : Type 0} (set : KeySet) (s : State Seed) (i : ℕ) (e : Enclave) (l : Loop Seed) (h : Heap)
    → i < 1
    → IsCurrent set h e
    → let z = (after s i e l h).zones 0 in IsCurrent set (heap_of h.nodes z) z.enclave
at_zone set s i e l h lt cur = rw (==_true i 0 (omega arith)) cur

module _ {Seed : Type 0} (rand_range_re : ℕ → Seed → ℕ × Seed) (params : AppParam)
    (malloc : Heap → Ptr) (mem : Memory) (lim : Limits) where
  abbrev Current : KeySet → State Seed → ℕ → Type 0
  Current set s i = IsCurrent set (heap_of s.nodes (s.zones i)) (s.zones i).enclave

  only_zone : (set : KeySet) (s : State Seed) (i : ℕ) → i < 1 → Current set s 0 → Current set s i
  only_zone set s i lt cur = subst (Current set s) (omega arith) cur

  -- The view after a round, by what the round does to the array.
  round-IsCurrent :
      (set : KeySet) (z : Zone Seed) (h0 h : Heap) (c : Loop Seed) (e : Enclave) (p : Ptr)
      → IsValid z.enclave
      → IsCurrent set h0 z.enclave
      → h.mnodes ≡ h0.mnodes
      → (c.otype ≡ insert → set c.key ≡ false → p ≢ null)
      → (c.otype ≡ delete → p ≡ null)
      → ((changes c.otype (set c.key) ≡ false) × (e ≡ z.enclave))
        ⊎ ((changes c.otype (set c.key) ≡ true)
            × ((opbuffer_insert c.key p z.enclave).0 ≡ true)
            × (e ≡ (opbuffer_insert c.key p z.enclave).1))
      → IsCurrent (set_op c.otype c.key set) h e
  round-IsCurrent set z h0 h c e p valid cur same ins del (inl (f, eq)) = record {
    behind = rw eq cur.behind;
    agrees = λ j nz. rw (eq, same, no_change c.otype c.key set j f) (cur.agrees j nz);
  }
  round-IsCurrent set z h0 h c e p valid cur same ins del (inr (t, d, eq)) =
      let job : Op = record { key = c.key; node = p } in
      let (_, parts) = insert_parts c.key p z.enclave d in
      let longer : waiting e ≡ waiting z.enclave ++ job ∷ [] =
        ap waiting eq ∙ insert-waiting c.key p z.enclave valid d in
      let snoc : show_all (waiting e) (unmarked h)
          ≡ show job (show_all (waiting z.enclave) (unmarked h0)) =
        ap (λ w. show_all w (unmarked h)) longer
        ∙ show_all-snoc (waiting z.enclave) job (unmarked h)
        ∙ ap (λ m. show job (show_all (waiting z.enclave) (unmarked (record h0 { mnodes = m }))))
            same in
      record {
        behind = rw (eq ∙ parts) cur.behind;
        agrees = λ j nz.
            subst (λ T. T ↔ (set_op c.otype c.key set j ≡ true)) (sym (ap (λ f. f j) snoc))
              (shows c.otype c.key p set j (show_all (waiting z.enclave) (unmarked h0) j) t ins del
                (cur.agrees j nz));
      }

  Step-IsCurrent :
      (s t : State Seed) (r : Option Request) (set : KeySet)
      → lim.count ≡ 1
      → Step rand_range_re params malloc mem lim s r t
      → IsSound lim.bound lim.high lim.count set s
      → Current set s 0
      → Current (set_step r set) t 0
  Step-IsCurrent _ _ _ set one (work s i l e h lt nz small supply run) sound cur0 =
      let z = s.zones i in
      let cur = only_zone set s i (omega arith) cur0 in
      let c = choose rand_range_re params z.loop in
      let (h', p, run', _, _, only, ins, del, _) =
        work-done rand_range_re params malloc mem lim s.nodes z (sound.zone i lt) set sound.set_is
          nz small supply in
      let (after_eq, eq) = ok-injective (sym run' ∙ run) in
      at_zone (set_op c.otype c.key set) s i e l h (omega arith) (
        round-IsCurrent set z (heap_of s.nodes z) h c e p (sound.zone i lt).valid cur
          (ap (λ x. x.mnodes) (sym eq ∙ only)) ins del
          (after_round-cases rand_range_re params c l z.enclave e (set c.key) p after_eq))
  Step-IsCurrent _ _ _ set one (publish s i job e h lt is supply run) sound cur0 =
      let z = s.zones i in
      let cur = only_zone set s i (omega arith) cur0 in
      let (h', run', _, sets, _) =
        publish-done rand_range_re params malloc mem lim s.nodes z (sound.zone i lt) job e is
          supply in
      let (_, eq) = ok-injective (sym run' ∙ run) in
      let (split, behind) = remove-waiting z.enclave e job (sound.zone i lt).valid cur.behind is in
      let shown : (j : ℕ) → unmarked h j ↔ show job (unmarked (heap_of s.nodes z)) j =
        subst (λ x. (j : ℕ) → unmarked x j ↔ show job (unmarked (heap_of s.nodes z)) j) eq
          (publish-unmarked (heap_of s.nodes z) h' job sets) in
      at_zone set s i e z.loop h (omega arith) (record {
        behind = behind;
        agrees = λ j nz.
            trans
              (show_all-same (waiting e) (unmarked h) (show job (unmarked (heap_of s.nodes z)))
                shown j)
              (subst (λ w. show_all w (unmarked (heap_of s.nodes z)) j ↔ (set j ≡ true)) split
                (cur.agrees j nz));
      })
  Step-IsCurrent _ _ _ set one (update s i room new d h lt budget rooms stays run within) sound
        cur0 =
      let z = s.zones i in
      let cur = only_zone set s i (omega arith) cur0 in
      let (new', d', h', run', _, _, same, _) =
        update-done rand_range_re params malloc mem lim s.nodes z (sound.zone i lt) room budget
          rooms stays in
      let (_, eq) = ok-injective (sym run' ∙ run) in
      at_zone set s i (updated z.enclave new d) z.loop h (omega arith) (
        same-IsCurrent set (heap_of s.nodes z) h z.enclave (updated z.enclave new d) cur refl
          cur.behind (subst (λ x. (j : ℕ) → unmarked x j ↔ unmarked (heap_of s.nodes z) j) eq same))
  Step-IsCurrent _ _ _ set one (reset s i new h lt room run) sound cur0 =
      let z = s.zones i in
      let cur = only_zone set s i (omega arith) cur0 in
      let (h', new', run', same, next) =
        reset-done rand_range_re params malloc mem lim s.nodes z (sound.zone i lt) room in
      let (_, eq) = ok-injective (sym run' ∙ run) in
      let e : Enclave = record z.enclave { sentinel = new; reset_index = false } in
      at_zone set s i e z.loop h (omega arith) (
        same-IsCurrent set (heap_of s.nodes z) h z.enclave e cur refl cur.behind (
          subst (λ x. (j : ℕ) → unmarked x j ↔ unmarked (heap_of s.nodes z) j) eq
            λ j. same.1 j false))

  view_after :
      (s t : State Seed) (rs : List Request) (set : KeySet)
      → lim.count ≡ 1
      → IsSound lim.bound lim.high lim.count set s
      → Current set s 0
      → Steps rand_range_re params malloc mem lim s rs t
      → Current (set_all rs set) t 0
  view_after _ _ _ set one sound cur (done s) = cur
  view_after _ _ _ set one sound cur (more s t u r rs now later) =
      subst (λ x. Current x u 0) (sym (set_steps rand_range_re params malloc mem lim r rs set))
        (view_after t u rs (set_step r set) one
          (Step-IsSound rand_range_re params malloc mem lim s t r set now sound)
          (Step-IsCurrent s t r set one now sound cur) later)

  -- With one enclave, from a state in which its layers fit together and represent a set of keys, where
  -- the helper's index stands before the last two slots, and the unmarked keys of the intermediate
  -- layer become the set, but for the sentinel's key 0, when the operations that wait in the array are
  -- published in their order: along any steps of its two threads in any order, where a step is a whole
  -- round of the application, the publishing of one operation, a whole pass of update_index_layer in
  -- which the counters do not ask for a lower index and after which the index is within the limit, or
  -- a reset of the index, the layers still fit together, and the same holds of the helper's index
  -- and of the set after the application's operations: the helper lags behind by the operations in
  -- the array, and by nothing else.
  pub Steps-IsCurrent :
      (s t : State Seed) (rs : List Request) (set : KeySet)
      → lim.count ≡ 1
      → IsSound lim.bound lim.high lim.count set s
      → Current set s 0
      → Steps rand_range_re params malloc mem lim s rs t
      → IsSound lim.bound lim.high lim.count (set_all rs set) t × Current (set_all rs set) t 0
  Steps-IsCurrent s t rs set one sound cur steps = (
    Steps-IsSound rand_range_re params malloc mem lim s t rs set steps sound,
    view_after s t rs set one sound cur steps,
  )
