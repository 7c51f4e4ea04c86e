-- ===== src/Layout/Places.antt =====
-- Each hardware thread gets a place of its own, within the bounds of the arrays.
use mathlib.Core.Path.{subst}
use native.Mathlib.Nat.{mul-add, mul-le-mul_left, mul_assoc, mul_comm}
use hosk.Base.{
  ℕ, zero, suc, ◌+◌, ◌*◌, ◌≤◌, ◌<◌, ◌≡◌, refl, sym, ap, inl, inr, false, true, ◌&&◌, not, some,
  List, [], ◌∷◌, length, ◌==◌, mod_step, arith, ==_true, ==_false, dec_lt, ℕ_discrete,
}
use hosk.Layout.{Cursor, Place, advance, place_all, get_hardware_layout}

module _ (sockets cores : ℕ) where
  -- The number that a place stands for; places with different numbers differ.
  abbrev pub number : Cursor → ℕ
  number c = c.core + cores * (c.socket + sockets * c.physical)

  abbrev pub Within : Cursor → Type 0
  Within c = (c.core < cores) × (c.socket < sockets)

  data Advances (c : Cursor) : Type 0 where
    same_socket :
        advance sockets cores c ≡ record c { core = c.core + 1 } → c.core + 1 < cores → Advances c
    next_socket :
        advance sockets cores c ≡ record c { socket = c.socket + 1; core = 0 }
        → c.core + 1 ≡ cores
        → c.socket + 1 < sockets
        → Advances c
    next_physical :
        advance sockets cores c ≡ record { socket = 0; core = 0; physical = c.physical + 1 }
        → c.core + 1 ≡ cores
        → c.socket + 1 ≡ sockets
        → Advances c

  advances : (c : Cursor) → Within c → Advances c
  unfolding advance
  advances c (core, socket) = elim (mod_step c.core cores core) [
    | inl (e, more) ↦
        same_socket (rw (advance, e, ==_false (c.core + 1) 0 (λ z. omega arith)) refl) more
    | inr (e, last) ↦ elim (mod_step c.socket sockets socket) [
      | inl (f, more) ↦
          next_socket (rw (advance, e, f, ==_false (c.socket + 1) 0 (λ z. omega arith)) refl) last
            more
      | inr (f, end) ↦ next_physical (rw (advance, e, f) refl) last end
    ]
  ]

  abbrev Goes : Cursor → Cursor → Type 0
  Goes c d = Within d × (number d ≡ number c + 1)

  carry : (n m : ℕ) → n * (m + 1) ≡ n * m + n
  carry n m = grind (arith, mul-add n m 1)

  advance-Goes : (c : Cursor) → Within c → Goes c (advance sockets cores c)
  advance-Goes c (core, socket) = elim (advances c (core, socket)) [
    | same_socket e more ↦ subst (Goes c) (sym e) (ground arith)
    | next_socket e last more ↦
        let k = carry cores (c.socket + sockets * c.physical) in
        let same : cores * (c.socket + 1 + sockets * c.physical)
            ≡ cores * (c.socket + sockets * c.physical + 1) =
          ap (λ x. cores * x) (omega arith) in
        subst (Goes c) (sym e) ((omega arith, more), omega (arith, same, k, last))
    | next_physical e last end ↦
        let k = carry cores (c.socket + sockets * c.physical) in
        let l = carry sockets c.physical in
        let same : cores * (0 + sockets * (c.physical + 1))
            ≡ cores * (c.socket + sockets * c.physical + 1) =
          ap (λ x. cores * x) (omega (arith, l)) in
        subst (Goes c) (sym e) ((omega arith, omega arith), omega (arith, same, k, last))
  ]

  -- Less than two rounds over all cores are over.
  early : (c : Cursor) → number c < cores * (sockets * 2) → c.physical < 2
  early c h = elim (dec_lt c.physical 2) [
    | yes lt ↦ lt
    | no ge ↦
        let a : sockets * 2 ≤ sockets * c.physical = mul-le-mul_left sockets (omega arith) in
        let b : cores * (sockets * 2) ≤ cores * (c.socket + sockets * c.physical) =
          mul-le-mul_left cores (omega arith) in
        absurd (omega arith)
  ]

  -- Hardware threads with consecutive numbers from `k` on, each at the place of its number.
  abbrev pub Laid : ℕ → List Place → Type 0
  Laid k [] = Unit {0}
  Laid k (p ∷ ps) =
      ((p.pnum ≡ k) × (number p.place ≡ k) × Within p.place × (p.place.physical < 2))
      × Laid (k + 1) ps

  place_all-Laid :
      (left pnum : ℕ) (c : Cursor)
      → Within c
      → number c ≡ pnum
      → pnum + left ≡ cores * (sockets * 2)
      → (ps : List Place) × (place_all sockets cores left pnum c ≡ some ps)
        × (length ps ≡ left)
        × Laid pnum ps
  unfolding place_all
  place_all-Laid zero pnum c within at total = ([], refl, refl, tt)
  place_all-Laid (suc left) pnum c within at total =
      let (within', at') = advance-Goes c within in
      let (ps, run, many, laid) =
        place_all-Laid left (pnum + 1) (advance sockets cores c) within' (omega arith)
          (omega arith) in
      let goes_on : ((advance sockets cores c).physical == 2) && not (left == 0) ≡ false =
        elim (ℕ_discrete left 0) [
          | yes z ↦ ground arith
          | no ne ↦ let lt = early (advance sockets cores c) (omega arith) in ground arith
        ] in
      (
        record { pnum = pnum; place = c } ∷ ps,
        rw (goes_on, run) refl,
        omega arith,
        ((refl, at, within, early c (omega arith)), laid),
      )

-- On a machine with hyperthreading, two hardware threads a core, and numbers that agree, with at least one socket and
-- one core: get_hardware_layout reports no error, and it places the hardware threads 0, 1, 2, ... in
-- that order, as many as there are; each is at the place whose core, socket and thread of the core
-- give its number in the mixed radix of cores and sockets, so that no two share a place, and every
-- place is within the arrays.
pub get_hardware_layout-Laid :
    (sockets cores : ℕ)
    → 0 < sockets
    → 0 < cores
    → (ps : List Place) × (get_hardware_layout true 2 sockets cores (sockets * cores * 2) ≡ some ps)
      × (length ps ≡ sockets * cores * 2)
      × Laid sockets cores 0 ps
unfolding get_hardware_layout
get_hardware_layout-Laid sockets cores some_socket some_core =
    let total : 0 + sockets * cores * 2 ≡ cores * (sockets * 2) =
      grind (arith, mul_assoc cores sockets 2, mul_comm sockets cores) in
    let start : Cursor = record { socket = 0; core = 0; physical = 0 } in
    let (ps, run, many, laid) =
      place_all-Laid sockets cores (sockets * cores * 2) 0 start (some_core, some_socket)
        (omega arith) total in
    (ps, rw (==_true (sockets * cores * 2) (sockets * cores * 2) refl) run, many, laid)
