-- ===== src/Background/Second.antt =====
-- The second level that update_index_layer adds where there was one, and the level that it adds at last.
use hosk.Base.{
  ℕ, ◌≤◌, ◌<◌, ◌≡◌, refl, ◌⊎◌, inl, inr, true, false, not, ◌&&◌, arith, ℕ_discrete, Bool-cases,
  ◌==◌, if◌then◌else◌, ==_true, ==_false,
}
use hosk.Enclave.{Ptr}
use hosk.Skiplist.{Inode, Mnode, Heap, Run, null, ok}
use hosk.Skiplist.Upper.{Memory, load_inode, load_mnode}
use hosk.Index.{IsSkiplist}
use hosk.Index.Search.{load_inode-ok, load_mnode-ok}
use hosk.Levels.Add.{SameContents, SameContents-refl}
use hosk.Levels.Raise.{Rooms, Left}
use hosk.Background.{add_level, second_level}
use hosk.Background.Column.{IsColumn}
use hosk.Background.Rows.{same-IsColumn}
use hosk.Background.Top.{add_level-AddsLevel}

module _ (mem : Memory) (b : ℕ) (sentinel : Ptr) (g : ℕ → Ptr) {h : Heap} {s : Inode} {m : Mnode}
    (load1 : load_inode sentinel h ≡ ok s h) (load2 : load_mnode s.intermed h ≡ ok m h) where
  second_none :
      (not (b == 0) && (m.level == 1)) ≡ false
      → second_level mem b sentinel g h ≡ ok (sentinel, g) h
  unfolding second_level
  second_none f = rw (load1, load2, f) refl

  second_more :
      {h' : Heap} {new : Ptr}
      → (not (b == 0) && (m.level == 1)) ≡ true
      → add_level mem sentinel h ≡ ok new h'
      → g 1 ≡ null
      → second_level mem b sentinel g h ≡ ok (new, λ a. if a == 1 then new else g a) h'
  unfolding second_level
  second_more t run free = rw (load1, load2, t, run, ==_true (g 1) null free) refl

-- A column of the index under the new or the old sentinel.
abbrev pub Seconds : Memory → ℕ → (Ptr → ℕ) → Ptr → Heap → Run (Ptr × (ℕ → Ptr)) → Type 0
Seconds mem room old sentinel h r =
    (height : Ptr → ℕ) × (new : Ptr) × (g : ℕ → Ptr) × (h' : Heap) × (r ≡ ok (new, g) h')
    × (whole : IsSkiplist height new h') × IsColumn h' whole.index (height new) 0 g
    × ((height new ≡ old sentinel) ⊎ ((height new ≡ 2) × (old sentinel ≡ 1)))
    × SameContents h h'
    × Left mem room 1 h'

pub second_level-Seconds :
    (mem : Memory) (b room : ℕ) {height : Ptr → ℕ} {sentinel : Ptr} (g : ℕ → Ptr) (h : Heap)
    (whole : IsSkiplist height sentinel h)
    → IsColumn h whole.index (height sentinel) 0 g
    → ((i : ℕ) → height sentinel ≤ i → g i ≡ null)
    → 0 < room
    → Rooms mem room h
    → Seconds mem room height sentinel h (second_level mem b sentinel g h)
second_level-Seconds mem b room {height} {sentinel} g h whole column free some_room rooms =
    let (s, es, ks) = whole.start in
    let (m, em, km, _) = whole.index.intermed sentinel s es whole.used in
    let level = whole.top s m es em in
    let load1 = load_inode-ok h whole.index sentinel s es in
    let load2 = load_mnode-ok h whole.index s.intermed m em in
    elim (Bool-cases (not (b == 0) && (m.level == 1))) [
      | inr f ↦ (
        height,
        sentinel,
        g,
        h,
        second_none mem b sentinel g load1 load2 f,
        whole,
        column,
        inl refl,
        SameContents-refl h,
        (room, h, rooms, (λ a e. e), omega arith),
      )
      | inl t ↦
          let one : height sentinel ≡ 1 = ground (arith, t) in
          let (height', new, y, h', run, whole', high, ey, ky, same, keeps, left) =
            add_level-AddsLevel mem room h whole (omega arith) some_room rooms in
          let old = same-IsColumn h h' whole whole' (height sentinel) 0 g keeps column in
          (
            height',
            new,
            λ a. if a == 1 then new else g a,
            h',
            second_more mem b sentinel g load1 load2 t run (free 1 (omega arith)),
            whole',
            λ i lt. elim (ℕ_discrete i 1) [
              | yes z ↦ rw (==_true i 1 z) (y, ey, omega arith, ky)
              | no ne ↦ rw (==_false i 1 ne) (old i (omega arith))
            ],
            inr (omega arith, one),
            same,
            left,
          )
    ]
