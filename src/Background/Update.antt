-- ===== src/Background/Update.antt =====
-- A pass of update_index_layer: it ends, under a sentinel that is at most two levels higher.
use mathlib.Core.Path.{subst}
use hosk.Base.{
  ℕ, zero, suc, ◌+◌, ◌*◌, ◌^◌, ◌≤◌, ◌<◌, ◌≡◌, refl, sym, ◌∙◌, ◌⊎◌, inl, inr, false, arith,
  ℕ_discrete, ==_true, ==_false, ◌==◌, if◌then◌else◌, none,
}
use hosk.Enclave.{Ptr}
use hosk.Skiplist.{Heap, Run, ok, pure, null}
use hosk.Skiplist.Upper.{Memory}
use hosk.Index.{IsSkiplist}
use hosk.Sweep.{Dels, bg_trav_mnodes}
use hosk.Sweep.Trav.{Below, Sweeps}
use hosk.Sweep.Loop.{bg_trav_mnodes-Swept}
use hosk.Sweep.Marks.{Sweeps-key}
use hosk.Levels.Add.{SameContents, SameContents-refl, SameContents-trans}
use hosk.Levels.Raise.{Rooms, Rooms-Within}
use hosk.Background.{
  max_levels, raise_bottom, second_level, raise_levels, add_level, update_index_layer, asks_lower,
}
use hosk.Background.Column.{IsColumn}
use hosk.Background.Lowest.{raise_bottom-RaisesLowest}
use hosk.Background.Rows.{same-Below, rooms_for, raise_levels-RaisesAll}
use hosk.Background.Second.{second_level-Seconds}
use hosk.Background.Top.{add_level-AddsLevel}

update_run :
    (mem : Memory) (fuel b b' : ℕ) (g g' : ℕ → Ptr) (sentinel s s' : Ptr) (d d' : Dels) (h : Heap)
    {h1 h2 h3 h4 h5 : Heap}
    → bg_trav_mnodes fuel sentinel d h ≡ ok d' h1
    → raise_bottom mem fuel sentinel h1 ≡ ok (b, g) h2
    → second_level mem b sentinel g h2 ≡ ok (s, g') h3
    → raise_levels mem fuel fuel s g' 0 b h3 ≡ ok b' h4
    → (if b' == 0 then pure s else add_level mem s) h4 ≡ ok s' h5
    → asks_lower d' ≡ false
    → update_index_layer mem fuel sentinel d h ≡ ok (s', d') h5
unfolding update_index_layer
update_run mem fuel b b' g g' sentinel s s' d d' h e1 e2 e3 e4 e5 f =
    rw (e1, e2, e3, e4, e5, f) refl

-- The layers fit together under the new sentinel.
abbrev Tops : (Ptr → ℕ) → Ptr → Heap → Run Ptr → Type 0
Tops old sentinel h r =
    (height : Ptr → ℕ) × (new : Ptr) × (h' : Heap) × (r ≡ ok new h')
    × IsSkiplist height new h'
    × (height new ≤ old sentinel + 1)
    × SameContents h h'

top_level :
    (mem : Memory) (b room : ℕ) {height : Ptr → ℕ} {sentinel : Ptr} (h : Heap)
    → IsSkiplist height sentinel h
    → height sentinel + 1 < 2 ^ 32
    → 0 < room
    → Rooms mem room h
    → Tops height sentinel h ((if b == 0 then pure sentinel else add_level mem sentinel) h)
top_level mem b room {height} {sentinel} h whole small some_room rooms = elim (ℕ_discrete b 0) [
  | yes z ↦ (height, sentinel, h, rw (==_true b 0 z) refl, whole, omega arith, SameContents-refl h)
  | no ne ↦
      let (height', new, y, h', run, whole', high, _, _, same, _, _) =
        add_level-AddsLevel mem room h whole small some_room rooms in
      (height', new, h', rw (==_false b 0 ne) run, whole', omega arith, same)
]

-- The rows that are raised after the lowest, and the rooms for them.
rows :
    (n bound now : ℕ)
    → ((now ≡ suc n) ⊎ ((now ≡ 2) × (suc n ≡ 1)))
    → (c : ℕ) × (now ≡ 0 + c + 1) × (c ≤ suc n) × (rooms_for c bound ≤ rooms_for (suc n) bound)
rows n bound now (inl z) = (n, omega arith, omega arith, omega arith)
rows zero bound now (inr (z, one)) = (1, omega arith, omega arith, omega arith)
rows (suc n) bound now (inr (z, one)) = absurd (omega arith)

-- The upper rows, once nodes are raised to the lowest one.
abbrev Uppers : Memory → ℕ → ℕ → (ℕ → Ptr) → (Ptr → ℕ) → Ptr → Heap → Type 0
Uppers mem fuel b g old sentinel h =
    (height : Ptr → ℕ) × (s : Ptr) × (g' : ℕ → Ptr) × (h3 : Heap) × (b' : ℕ) × (h' : Heap)
    × (second_level mem b sentinel g h ≡ ok (s, g') h3)
    × (raise_levels mem fuel fuel s g' 0 b h3 ≡ ok b' h')
    × IsSkiplist height s h'
    × (height s ≤ old sentinel + 1)
    × SameContents h h'
    × (room : ℕ) × (0 < room)
    × Rooms mem room h'

upper_rows :
    (mem : Memory) (fuel bound room n b : ℕ) {height : Ptr → ℕ} {sentinel : Ptr} (g : ℕ → Ptr)
    (h : Heap) (whole : IsSkiplist height sentinel h)
    → IsColumn h whole.index (height sentinel) 0 g
    → ((i : ℕ) → height sentinel ≤ i → g i ≡ null)
    → height sentinel ≡ suc n
    → suc n + 2 ≤ max_levels
    → Below bound h
    → 2 * bound + 1 < fuel
    → suc n < fuel
    → rooms_for (suc n) bound + 2 ≤ room
    → Rooms mem room h
    → Uppers mem fuel b g height sentinel h
upper_rows mem fuel bound room n b {height} {sentinel} g h whole column free high few below enough
      deep budget rooms =
    let (height3, s, g', h3, run3, whole3, column3, grown, same3, left3) =
      second_level-Seconds mem b room g h whole column free (omega arith) rooms in
    let rooms3 = Rooms-Within mem left3.0 left3.1 h3 left3.2 left3.3 in
    let grown' : (height3 s ≡ suc n) ⊎ ((height3 s ≡ 2) × (suc n ≡ 1)) = elim grown [
      | inl z ↦ inl (z ∙ high)
      | inr (z, one) ↦ inr (z, sym high ∙ one)
    ] in
    let (c, now, small, room_now) = rows n bound (height3 s) grown' in
    let (height4, b4, h4, run4, whole4, same4, keeps4, left4) =
      raise_levels-RaisesAll mem fuel bound g' enough c fuel 0 b left3.0 h3 whole3 now (omega arith)
        (omega arith) (same-Below bound h h3 same3 below) column3 (omega (arith, left3.4)) rooms3 in
    let (i, ei, _) = whole3.start in
    let (_, _, _, _, _, top4) = keeps4 s i ei in
    (
      height4,
      s,
      g',
      h3,
      b4,
      h4,
      run3,
      run4,
      whole4,
      omega arith,
      SameContents-trans h h3 h4 same3 same4,
      left4.0,
      omega (arith, left3.4, left4.4),
      Rooms-Within mem left4.0 left4.1 h4 left4.2 left4.3,
    )

-- What is left once the lowest row is raised.
abbrev Finishes : (Ptr → ℕ) → Ptr → Dels → Heap → Run (Ptr × Dels) → Type 0
Finishes old sentinel d' h2 r =
    (height : Ptr → ℕ) × (new : Ptr) × (h' : Heap) × (r ≡ ok (new, d') h')
    × IsSkiplist height new h'
    × (height new ≤ old sentinel + 2)
    × SameContents h2 h'

finish :
    (mem : Memory) (fuel bound room n b : ℕ) {height : Ptr → ℕ} {sentinel : Ptr} (g : ℕ → Ptr)
    (d d' : Dels) (h h1 h2 : Heap) (whole : IsSkiplist height sentinel h2)
    → bg_trav_mnodes fuel sentinel d h ≡ ok d' h1
    → raise_bottom mem fuel sentinel h1 ≡ ok (b, g) h2
    → asks_lower d' ≡ false
    → IsColumn h2 whole.index (height sentinel) 0 g
    → ((i : ℕ) → height sentinel ≤ i → g i ≡ null)
    → height sentinel ≡ suc n
    → suc n + 2 ≤ max_levels
    → Below bound h2
    → 2 * bound + 1 < fuel
    → suc n < fuel
    → rooms_for (suc n) bound + 2 ≤ room
    → Rooms mem room h2
    → Finishes height sentinel d' h2 (update_index_layer mem fuel sentinel d h)
finish mem fuel bound room n b {height} {sentinel} g d d' h h1 h2 whole run1 run2 stays column free
      high few below enough deep budget rooms =
    let (height4, s, g', h3, b4, h4, run3, run4, whole4, up4, same4, room4, some_room, rooms4) =
      upper_rows mem fuel bound room n b g h2 whole column free high few below enough deep budget
        rooms in
    let (height5, new, h5, run5, whole5, up, same5) =
      top_level mem b4 room4 {height = height4} {sentinel = s} h4 whole4 (omega arith) some_room
        rooms4 in
    (
      height5,
      new,
      h5,
      update_run mem fuel b b4 g g' sentinel s new d d' h {h1 = h1} {h2 = h2} {h3 = h3} {h4 = h4}
          {h5 = h5} run1 run2 run3 run4 run5 stays,
      whole5,
      omega arith,
      SameContents-trans h2 h4 h5 same4 same5,
    )

-- The sweep took out what is marked and has no level; the layers then keep their contents.
abbrev pub Updates : Memory → ℕ → (Ptr → ℕ) → Ptr → Dels → Heap → Run (Ptr × Dels) → Type 0
Updates mem fuel old sentinel d h r =
    (height : Ptr → ℕ) × (new : Ptr) × (d' : Dels) × (h1 h' : Heap) × (r ≡ ok (new, d') h')
    × IsSkiplist height new h'
    × (height new ≤ old sentinel + 2)
    × (bg_trav_mnodes fuel sentinel d h ≡ ok d' h1)
    × (h1 ≡ record h { mnodes = h1.mnodes })
    × Sweeps 0 h h1
    × SameContents h1 h'

-- On a skip list that is at least two levels lower than MAX_LEVELS, with all keys below a bound, with fuel for
-- twice the bound and for each row, room for an index node per key and row, and where the counters of
-- the sweep do not ask for a lower index: update_index_layer ends, and no assertion fails; the layers
-- fit together under the sentinel that it returns, which is at most two levels higher; and what it
-- does to the layers is the sweep, with the same contents afterwards.
pub update_index_layer-Updates :
    (mem : Memory) (fuel bound room n : ℕ) {height : Ptr → ℕ} {sentinel : Ptr} (d : Dels) (h : Heap)
    → IsSkiplist height sentinel h
    → height sentinel ≡ suc n
    → suc n + 2 ≤ max_levels
    → Below bound h
    → 2 * bound + 1 < fuel
    → suc n < fuel
    → bound + rooms_for (suc n) bound + 2 ≤ room
    → Rooms mem room h
    → ((d' : Dels) (h1 : Heap)
        → bg_trav_mnodes fuel sentinel d h ≡ ok d' h1
        → asks_lower d' ≡ false)
    → Updates mem fuel height sentinel d h (update_index_layer mem fuel sentinel d h)
update_index_layer-Updates mem fuel bound room n {height} {sentinel} d h whole high few below enough
      deep budget rooms grows =
    let (h1, d', run1, whole1, only, sweeps) =
      bg_trav_mnodes-Swept fuel bound h d whole below (omega arith) in
    let rooms1 =
      Rooms-Within mem room h h1 rooms (λ a e. subst (λ x. x.inodes a ≡ none) (sym only) e) in
    let below1 : Below bound h1 = (λ p m em.
      let (q, x, ex, kx, _) = Sweeps-key h h1 sweeps m.key m.marked (p, m, em, refl, refl) in
      omega (arith, below q x ex)) in
    let (height2, b, g, h2, run2, whole2, top2, same2, lifts2, left2, column2, _, free) =
      raise_bottom-RaisesLowest mem fuel bound room n h1 whole1 high (omega arith) below1 enough
        (omega arith) rooms1 in
    let rooms2 = Rooms-Within mem left2.0 left2.1 h2 left2.2 left2.3 in
    let (height5, new, h5, run, whole5, up, same5) =
      finish mem fuel bound left2.0 n b {height = height2} {sentinel = sentinel} g d d' h h1 h2
        whole2 run1 run2 (grows d' h1 run1) column2 free (top2 ∙ high) few
        (same-Below bound h1 h2 same2 below1) enough deep (omega (arith, left2.4)) rooms2 in
    (
      height5,
      new,
      d',
      h1,
      h5,
      run,
      whole5,
      omega arith,
      run1,
      only,
      sweeps,
      SameContents-trans h1 h2 h5 same2 same5,
    )
