-- ===== src/Levels/Above.antt =====
-- The loop that looks for the place of a new index node ends between two neighbours, one in front of
-- the key and one that is not.
use mathlib.Core.Path.{subst}
use hosk.Base.{
  ℕ, zero, suc, ◌+◌, ◌-◌, ◌≤◌, ◌<◌, ◌≡◌, refl, some, arith, ℕ_discrete, dec_lt, ◌==◌, ==_true,
  ==_false, lt→ltb, ltb-false, false,
}
use hosk.Enclave.{Ptr}
use hosk.Skiplist.{Inode, Heap, Run, null, ok}
use hosk.Index.{IsIndex}
use hosk.Index.Search.{load_inode-ok, load_mnode-ok}
use hosk.Levels.{find_above}

module _ {height : Ptr → ℕ} (h : Heap) (index : IsIndex height h) (key : ℕ) where
  -- An index node of a row in front of the key, and its right neighbour, which is not.
  pub record Between (row : ℕ) (above behind : Ptr) (x : Inode) : Type 0 where
    pub here : h.inodes behind ≡ some x
    pub used : 0 < height behind
    pub level : height behind ≡ row
    pub front : x.key < key
    pub leads : x.right ≡ above
    pub beyond : (r : Inode) → h.inodes above ≡ some r → key ≤ r.key

  abbrev pub Finds : ℕ → Run (Ptr × Ptr) → Type 0
  Finds row r =
      (above behind : Ptr) × (x : Inode) × (r ≡ ok (above, behind) h) × Between row above behind x

  module _ (inode : Ptr) (i : Inode) (first : h.inodes inode ≡ some i) where
    -- The first neighbour of `inode` is not behind the node `a`.
    abbrev Past : Inode → Type 0
    Past a = (r : Inode) × (h.inodes i.right ≡ some r) × (r.key ≤ a.key)

    -- The test on `inode->right` only holds in the first round.
    moves :
        (a : Inode)
        → (p : Ptr) → h.inodes p ≡ some a
        → 0 < height p
        → Past a
        → (a.right == i.right) ≡ false
    moves a p e used (r, er, le) = ==_false a.right i.right λ z.
        let live = index.live_inode i.right r er in
        let (y, ey, far, _) = index.right p a e used (ground arith) in ground arith

    walk :
        (fuel : ℕ) (behind : Ptr) (x : Inode)
        → h.inodes behind ≡ some x
        → 0 < height behind
        → x.key < key
        → 0 < fuel
        → ((a : Inode) → h.inodes x.right ≡ some a → Past a × (key - a.key + 1 < fuel))
        → Finds (height behind) (find_above fuel inode x.right behind key h)
    unfolding find_above
    walk zero behind x e used front some_fuel state = absurd (omega arith)
    walk (suc k) behind x e used front some_fuel state = elim (ℕ_discrete x.right null) [
      | yes end ↦ (
        x.right,
        behind,
        x,
        rw (==_true x.right null end) refl,
        record {
          here = e;
          used = used;
          level = refl;
          front = front;
          leads = refl;
          beyond = λ r er. absurd (index.live_inode x.right r er end);
        },
      )
      | no more ↦
          let (a, ea, far, level) = index.right behind x e used more in
          let used_a : 0 < height x.right = omega arith in
          let (m, em, km, _) = index.intermed x.right a ea used_a in
          let (past, enough) = state a ea in
          elim (dec_lt m.key key) [
            | no not_lt ↦ (
              x.right,
              behind,
              x,
              rw
                  (
                    ==_false x.right null more,
                    load_inode-ok h index x.right a ea,
                    load_mnode-ok h index a.intermed m em,
                    ltb-false m.key key (omega arith),
                  )
                  refl,
              record {
                here = e;
                used = used;
                level = refl;
                front = front;
                leads = refl;
                beyond = λ r er. ground arith;
              },
            )
            | yes lt ↦
                let (r, er, le) = past in
                let (above, q, y, run, between) =
                  walk k x.right a ea used_a (omega arith) (omega arith) (λ b eb.
                    let (b', eb', farther, _) =
                      index.right x.right a ea used_a (index.live_inode a.right b eb) in
                    ((r, er, ground arith), ground arith)) in
                (
                  above,
                  q,
                  y,
                  rw
                      (
                        ==_false x.right null more,
                        load_inode-ok h index x.right a ea,
                        load_mnode-ok h index a.intermed m em,
                        lt→ltb m.key key lt,
                        load_inode-ok h index inode i first,
                        moves a x.right ea used_a past,
                        load_inode-ok h index behind x e,
                      )
                      run,
                  subst (λ row. Between row above q y) level between,
                )
          ]
    ]

    -- From `inode` itself, in front of the key.
    pub find_above-Finds :
        (fuel : ℕ)
        → 0 < height inode
        → i.key < key
        → key - i.key + 1 < fuel
        → Finds (height inode) (find_above fuel inode inode inode key h)
    unfolding find_above
    find_above-Finds zero used front enough = absurd (omega arith)
    find_above-Finds (suc k) used front enough =
        let (m, em, km, _) = index.intermed inode i first used in
        let (above, q, y, run, between) = walk k inode i first used front (omega arith) (λ a ea.
          let (a', ea', far, _) = index.right inode i first used (index.live_inode i.right a ea) in
          ((a, ea, omega arith), ground arith)) in
        (
          above,
          q,
          y,
          rw
              (
                ==_false inode null (index.live_inode inode i first),
                load_inode-ok h index inode i first,
                load_mnode-ok h index i.intermed m em,
                lt→ltb m.key key (omega arith),
                load_inode-ok h index inode i first,
                ==_true i.right i.right refl,
              )
              run,
          between,
        )
