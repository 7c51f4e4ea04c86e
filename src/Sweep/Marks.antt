-- ===== src/Sweep/Marks.antt =====
-- What a sweep does to the marks of the keys.
use hosk.Base.{ℕ, refl, ◌↔◌, Bool, false, arith}
use hosk.Skiplist.{Heap}
use hosk.Helper.Update.{Tracks}
use hosk.Sweep.Trav.{Sweeps}

-- Unmarked keys stay.
pub Sweeps-unmarked : (h h' : Heap) → Sweeps 0 h h' → (j : ℕ) → Tracks h' j false ↔ Tracks h j false
Sweeps-unmarked h h' sweeps j = (
  λ (p, m, e, k, b).
      let ((q, x, ex, kx, bx, _), _) = (sweeps j false m.level).0 (p, m, e, k, b, refl) in
      (q, x, ex, kx, bx),
  λ (p, m, e, k, b).
      let (q, x, ex, kx, bx, _) =
        (sweeps j false m.level).1 ((p, m, e, k, b, refl), λ (_, w, _). ground arith) in
      (q, x, ex, kx, bx),
)

-- No key or mark is new.
pub Sweeps-key : (h h' : Heap) → Sweeps 0 h h' → (j : ℕ) (b : Bool) → Tracks h' j b → Tracks h j b
Sweeps-key h h' sweeps j b (p, m, e, k, same) =
    let ((q, x, ex, kx, bx, _), _) = (sweeps j b m.level).0 (p, m, e, k, same, refl) in
    (q, x, ex, kx, bx)
