-- ===== src/System/Pieces.antt =====
-- What each piece of work of a helper comes to on an enclave that is sound.
use hosk.Sweep.Marks.{Sweeps-unmarked, Sweeps-key}
use hosk.Background.Rows.{rooms_for, rooms_for-le}
use hosk.Background.Update.{update_index_layer-Updates}
use hosk.Background.{update_index_layer}
use hosk.Sweep.Fresh.{reset_index-Resets}
use hosk.Levels.Add.{SameContents}
use hosk.Helper.Update.{Sets, Tracks}
use mathlib.Core.Path.{ap, subst}
use hosk.Base.{
  ◌-◌, ℕ, suc, ◌+◌, ◌≤◌, ◌≡◌, refl, sym, ◌↔◌, inl, inr, false, some, arith, Bool, get_or,
}
use hosk.Enclave.{Ptr, Op, no_op, Enclave, opbuffer_remove}
use hosk.Enclave.OpBuffer.{IsValid, opbuffer_remove-IsValid}
use hosk.Skiplist.{Node, Store, Heap, ok, Word}
use hosk.Application.Layer.{KeepsKeys, Maps}
use hosk.Index.{IsSkiplist}
use hosk.Helper.Publish.{Allocates, Outcome, update_intermediate_layer-Published}
use hosk.Workload.{AppParam}
use hosk.System.{
  Zone, heap_of, zone_of, Limits, Memory, update_intermediate_layer, HasRoom, Dels, dels_of,
  reset_index, Rooms, Stays, IsLow, updated,
}
use hosk.System.Pending.{remove_parts}
use hosk.System.Sound.{IsGood, IsGood-keeps, IsSoundZone}

module _ {Seed : Type 0} (rand_range_re : ℕ → Seed → ℕ × Seed) (params : AppParam)
    (malloc : Heap → Ptr) (mem : Memory) (lim : Limits) (nodes : Store Node) (z : Zone Seed)
    (sound : IsSoundZone lim.bound lim.high nodes z) where
  abbrev heap : Heap
  heap = heap_of nodes z

  -- An operation that the helper takes out of the array.
  pub publish-done :
      (job : Op) (e : Enclave)
      → opbuffer_remove z.enclave ≡ (some job, e)
      → Allocates mem heap
      → (h : Heap) × (update_intermediate_layer mem lim.fuel z.enclave.sentinel job heap ≡ ok tt h)
        × (h ≡ record heap { mnodes = h.mnodes })
        × Sets heap h job.key (Outcome heap job)
        × IsSoundZone lim.bound lim.high h.nodes (zone_of e z.loop h)
  publish-done job e is supply =
      let (eq_job, eq, some_more) = remove_parts z.enclave e job is in
      let good : IsGood lim.bound nodes job =
        subst (IsGood lim.bound nodes) (sym eq_job) (sound.jobs z.enclave.hlp_idx) in
      let (h, run, whole, only, sets) =
        update_intermediate_layer-Published mem heap lim.fuel job sound.whole
          (omega (arith, sound.low, lim.enough, good.1)) good.0 supply in
      let valid = opbuffer_remove-IsValid sound.valid in
      (
        h,
        run,
        only,
        sets,
        record {
          height = sound.height;
          whole = rw eq whole;
          low = rw eq sound.low;
          valid = subst IsValid (ap (λ r. r.1) is) valid;
          jobs = rw (eq, ap (λ x. x.nodes) only) sound.jobs;
          below = λ p m em. elim ((sets m.key m.marked).0 (p, m, em, refl, refl)) [
            | inl (k, _) ↦ omega (arith, good.1)
            | inr (_, (q, x, ex, kx, _)) ↦ omega (arith, sound.below q x ex)
          ];
        },
      )

  -- The same keys over the same data nodes, or fewer keys.
  same-IsSoundZone :
      (h : Heap) (e : Enclave) {height : Ptr → ℕ}
      → IsSkiplist height e.sentinel h
      → height e.sentinel ≤ lim.high
      → e ≡ record z.enclave {
        sentinel = e.sentinel;
        reset_index = e.reset_index;
        non_del = e.non_del;
        tall_del = e.tall_del;
      }
      → ((j : ℕ) (b : Bool) → Tracks h j b → Tracks heap j b)
      → KeepsKeys nodes h.nodes
      → IsSoundZone lim.bound lim.high h.nodes (zone_of e z.loop h)
  same-IsSoundZone h e {height} whole low eq tracks keeps = record {
    height = height;
    whole = whole;
    low = low;
    valid = record {
      storage = rw eq sound.valid.storage;
      app_in = rw eq sound.valid.app_in;
      hlp_in = rw eq sound.valid.hlp_in;
    };
    jobs = rw eq λ k. IsGood-keeps (get_or z.enclave.opbuffer k no_op) keeps (sound.jobs k);
    below = λ p m em.
        let (q, x, ex, kx, _) = tracks m.key m.marked (p, m, em, refl, refl) in
        omega (arith, sound.below q x ex);
  }

  -- A pass over the index.
  pub update-done :
      (room : ℕ)
      → lim.bound + rooms_for lim.high lim.bound + 2 ≤ room
      → Rooms mem room heap
      → Stays mem lim z.enclave heap
      → (new : Ptr) × (d : Dels) × (h : Heap) × (update_index_layer mem lim.fuel z.enclave.sentinel
            (dels_of z.enclave)
            heap
          ≡ ok (new, d) h)
        × ((j : ℕ) (v : Word) → Maps h.nodes j v ↔ Maps nodes j v)
        × KeepsKeys nodes h.nodes
        × ((j : ℕ) → Tracks h j false ↔ Tracks heap j false)
        × (IsLow lim.high new h
            → IsSoundZone lim.bound lim.high h.nodes (zone_of (updated z.enclave new d) z.loop h))
  update-done room budget rooms stays =
      let low = sound.low in
      let used = sound.whole.used in
      let n = sound.height z.enclave.sentinel - 1 in
      let one : sound.height z.enclave.sentinel ≡ suc n = omega arith in
      let less = rooms_for-le (suc n) lim.high lim.bound (omega arith) in
      let (height, new, d, h1, h, run, whole, _, _, only, sweeps, (maps, tracks, keeps)) =
        update_index_layer-Updates mem lim.fuel lim.bound room n (dels_of z.enclave) heap
          sound.whole one (omega (arith, lim.few)) sound.below (omega (arith, lim.enough))
          (omega (arith, lim.enough)) (omega arith) rooms stays in
      let same : h1.nodes ≡ nodes = ap (λ x. x.nodes) only in
      let keeps' : KeepsKeys nodes h.nodes = subst (λ s. KeepsKeys s h.nodes) same keeps in
      (
        new,
        d,
        h,
        run,
        subst (λ s. (j : ℕ) (v : Word) → Maps h.nodes j v ↔ Maps s j v) same maps,
        keeps',
        λ j.
            let (f, g) = Sweeps-unmarked heap h1 sweeps j in
            let (f', g') = tracks j false in (λ t. f (f' t), λ t. g' (g t)),
        λ within.
            let (y, ey, _) = whole.start in
            let (m, em, _, _) = whole.index.intermed new y ey whole.used in
            same-IsSoundZone h (updated z.enclave new d) whole
              (omega (arith, whole.top y m ey em, within y m ey em)) refl
              (λ j b t. Sweeps-key heap h1 sweeps j b ((tracks j b).0 t)) keeps',
      )

  pub reset-done :
      HasRoom mem heap
      → (h : Heap) × (new : Ptr) × (reset_index mem lim.fuel z.enclave.sentinel heap ≡ ok new h)
        × SameContents heap h
        × IsSoundZone lim.bound lim.high h.nodes
            (zone_of (record z.enclave { sentinel = new; reset_index = false }) z.loop h)
  reset-done room =
      let (height, new, h, i, run, whole, one, _, _, _, maps, tracks, keeps, _) =
        reset_index-Resets mem lim.fuel lim.bound heap sound.whole sound.below
          (omega (arith, lim.enough, lim.some_key)) room in
      (
        h,
        new,
        run,
        (maps, tracks, keeps),
        same-IsSoundZone h (record z.enclave { sentinel = new; reset_index = false }) whole
            (omega (arith, lim.some_high)) refl (λ j b. (tracks j b).0) keeps,
      )
