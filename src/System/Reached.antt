-- ===== src/System/Reached.antt =====
-- Whatever the threads do and in whatever order, what holds between their steps.
use mathlib.Core.Path.{ap, subst}
use hosk.Base.{ℕ, ◌≡◌, refl, sym, ◌∙◌, some, none, arith, List, Option, ◌↔◌, true, false}
use hosk.Enclave.{Ptr, Enclave}
use hosk.Skiplist.{Heap, ok, Word}
use hosk.Application.Contains.{Has}
use hosk.Application.Layer.{KeepsKeys, Maps}
use hosk.Operation.{Request}
use hosk.Operation.Set.{KeySet, Represents, set_op, set_all}
use hosk.Workload.{AppParam}
use hosk.System.{
  State, heap_of, Limits, Step, work, publish, update, reset, IsLow, updated, Steps, done, more,
  Memory, zone_of, chosen, and_then,
}
use hosk.System.Sound.{IsSoundZone, IsSound, after-IsSound}
use hosk.System.Rounds.{work-done}
use hosk.System.Pieces.{publish-done, update-done, reset-done}

pub ok-injective : {A : Type 0} {a b : A} {h k : Heap} → ok a h ≡ ok b k → (a ≡ b) × (h ≡ k)
ok-injective e = ground arith

-- The same map represents the same set.
Maps-Represents :
    (set : KeySet) (h h' : Heap)
    → Represents set h
    → ((j : ℕ) (v : Word) → Maps h'.nodes j v ↔ Maps h.nodes j v)
    → Represents set h'
Maps-Represents set h h' same maps j = (
  λ t. let (v, m) = (same j).0 t in (v, (maps j v).1 m),
  λ (v, m). (same j).1 (v, (maps j v).0 m),
)

-- The set after a step.
abbrev pub set_step : Option Request → KeySet → KeySet
set_step none set = set
set_step (some r) set = set_op r.op r.key set

module _ {Seed : Type 0} (rand_range_re : ℕ → Seed → ℕ × Seed) (params : AppParam)
    (malloc : Heap → Ptr) (mem : Memory) (lim : Limits) where
  pub Step-IsSound :
      (s t : State Seed) (r : Option Request) (set : KeySet)
      → Step rand_range_re params malloc mem lim s r t
      → IsSound lim.bound lim.high lim.count set s
      → IsSound lim.bound lim.high lim.count (set_step r set) t
  Step-IsSound _ _ _ set (work s i l e h lt nz small supply run) sound =
      let z = s.zones i in
      let (h', p, run', same, keeps, _, _, _, next) =
        work-done rand_range_re params malloc mem lim s.nodes z (sound.zone i lt) set sound.set_is
          nz small supply in
      let (after_eq, eq) = ok-injective (sym run' ∙ run) in
      after-IsSound i e l h sound
        (subst (λ x. IsSoundZone lim.bound lim.high x.nodes (zone_of e l x)) eq (next l e after_eq))
        (subst (λ x. KeepsKeys s.nodes x.nodes) eq keeps)
        (subst
          (Represents (
            set_op (chosen rand_range_re params malloc mem lim z).op
              (chosen rand_range_re params malloc mem lim z).key set))
          eq same)
  Step-IsSound _ _ _ set (publish s i job e h lt is supply run) sound =
      let z = s.zones i in
      let (h', run', only, _, next) =
        publish-done rand_range_re params malloc mem lim s.nodes z (sound.zone i lt) job e is
          supply in
      let (_, eq) = ok-injective (sym run' ∙ run) in
      let rest : h.nodes ≡ s.nodes = ap (λ x. x.nodes) (sym eq ∙ only) in
      after-IsSound i e z.loop h sound
        (subst (λ x. IsSoundZone lim.bound lim.high x.nodes (zone_of e z.loop x)) eq next)
        (subst (KeepsKeys s.nodes) (sym rest) λ p n en. (n, en, refl))
        (subst (λ x. (j : ℕ) → (set j ≡ true) ↔ Has x j) (sym rest) sound.set_is)
  Step-IsSound _ _ _ set (update s i room new d h lt budget rooms stays run within) sound =
      let z = s.zones i in
      let (new', d', h', run', maps, keeps, _, next) =
        update-done rand_range_re params malloc mem lim s.nodes z (sound.zone i lt) room budget
          rooms stays in
      let (eq_res, eq) = ok-injective (sym run' ∙ run) in
      let low' : IsLow lim.high new' h' =
        subst (λ p. IsLow lim.high p h') (sym (ap (λ r. r.0) eq_res))
          (subst (IsLow lim.high new) (sym eq) within) in
      after-IsSound i (updated z.enclave new d) z.loop h sound
        (subst
          (λ r.
            IsSoundZone lim.bound lim.high h.nodes (zone_of (updated z.enclave r.0 r.1) z.loop h))
          eq_res
          (subst
            (λ x.
              IsSoundZone lim.bound lim.high x.nodes (zone_of (updated z.enclave new' d') z.loop x))
            eq (next low')))
        (subst (λ x. KeepsKeys s.nodes x.nodes) eq keeps)
        (subst (Represents set) eq (Maps-Represents set (heap_of s.nodes z) h' sound.set_is maps))
  Step-IsSound _ _ _ set (reset s i new h lt room run) sound =
      let z = s.zones i in
      let (h', new', run', same, next) =
        reset-done rand_range_re params malloc mem lim s.nodes z (sound.zone i lt) room in
      let (eq_new, eq) = ok-injective (sym run' ∙ run) in
      let e : Ptr → Enclave = (λ p. record z.enclave { sentinel = p; reset_index = false }) in
      after-IsSound i (e new) z.loop h sound
        (subst (λ p. IsSoundZone lim.bound lim.high h.nodes (zone_of (e p) z.loop h)) eq_new
          (subst (λ x. IsSoundZone lim.bound lim.high x.nodes (zone_of (e new') z.loop x)) eq next))
        (subst (λ x. KeepsKeys s.nodes x.nodes) eq same.2)
        (subst (Represents set) eq (Maps-Represents set (heap_of s.nodes z) h' sound.set_is same.0))

  pub set_steps :
      (r : Option Request) (rs : List Request) (set : KeySet)
      → set_all (and_then rand_range_re params malloc mem lim r rs) set
        ≡ set_all rs (set_step r set)
  set_steps none rs set = refl
  set_steps (some r) rs set = refl

  pub Steps-IsSound :
      (s t : State Seed) (rs : List Request) (set : KeySet)
      → Steps rand_range_re params malloc mem lim s rs t
      → IsSound lim.bound lim.high lim.count set s
      → IsSound lim.bound lim.high lim.count (set_all rs set) t
  Steps-IsSound _ _ _ set (done s) sound = sound
  Steps-IsSound _ _ _ set (more s t u r rs now later) sound =
      subst (λ x. IsSound lim.bound lim.high lim.count x u) (sym (set_steps r rs set))
        (Steps-IsSound t u rs (set_step r set) later (Step-IsSound s t r set now sound))
