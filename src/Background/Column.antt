-- ===== src/Background/Column.antt =====
-- The array of the first index nodes of each level, which update_index_layer makes.
use hosk.Base.{
  ℕ, zero, suc, ◌+◌, ◌<◌, ◌≡◌, refl, ◌∙◌, some, arith, ℕ_discrete, ◌==◌, if◌then◌else◌, ==_true,
  ==_false,
}
use hosk.Enclave.{Ptr}
use hosk.Skiplist.{Inode, Heap, null, ok}
use hosk.Index.{IsIndex}
use hosk.Index.Search.{load_inode-ok}
use hosk.Background.{first_inodes}

module _ {height : Ptr → ℕ} (h : Heap) (index : IsIndex height h) where
  one_inode :
      (n : ℕ) (p : Ptr) (x : Inode) (f : ℕ → Ptr)
      → h.inodes p ≡ some x
      → first_inodes (suc n) p f h ≡ first_inodes n x.down (λ a. if a == n then p else f a) h
  unfolding first_inodes
  one_inode n p x f here =
      rw (==_false p null (index.live_inode p x here), load_inode-ok h index p x here) refl

  -- An array with an index node of each height up to `n`, with the key.
  abbrev pub IsColumn : ℕ → ℕ → (ℕ → Ptr) → Type 0
  IsColumn n key g =
      (i : ℕ)
      → i < n
      → (y : Inode) × (h.inodes (g i) ≡ some y) × (height (g i) ≡ i + 1) × (y.key ≡ key)

  -- A column is as long as its first node is high, and ends there.
  pub first_inodes-IsColumn :
      (n : ℕ) (p : Ptr) (x : Inode) (f : ℕ → Ptr)
      → h.inodes p ≡ some x
      → height p ≡ suc n
      → (g : ℕ → Ptr) × (first_inodes (suc n) p f h ≡ ok (g, null) h)
        × IsColumn (suc n) x.key g
        × (g n ≡ p)
        × ((i : ℕ) → n < i → g i ≡ f i)
  unfolding first_inodes
  first_inodes-IsColumn zero p x f here high = elim (ℕ_discrete x.down null) [
    | yes end ↦ (
      λ a. if a == 0 then p else f a,
      one_inode 0 p x f here ∙ rw end refl,
      λ i lt. (
        x,
        rw (==_true i 0 (omega arith)) here,
        rw (==_true i 0 (omega arith)) (omega arith),
        refl,
      ),
      refl,
      λ i lt. rw (==_false i 0 (omega arith)) refl,
    )
    | no on ↦
        let (d, ed, _, used, lower) = index.down p x here (omega arith) on in absurd (omega arith)
  ]
  first_inodes-IsColumn (suc n) p x f here high = elim (ℕ_discrete x.down null) [
    | yes end ↦ absurd (omega (arith, index.bottom p x here (omega arith) end))
    | no on ↦
        let (d, ed, kd, used, lower) = index.down p x here (omega arith) on in
        let f' : ℕ → Ptr = (λ a. if a == suc n then p else f a) in
        let (g, run, column, last, rest) = first_inodes-IsColumn n x.down d f' ed (omega arith) in
        let at : g (suc n) ≡ p =
          rest (suc n) (omega arith) ∙ rw (==_true (suc n) (suc n) refl) refl in
        (
          g,
          one_inode (suc n) p x f here ∙ run,
          λ i lt. elim (ℕ_discrete i (suc n)) [
            | yes z ↦ (x, rw (z, at) here, rw (z, at) (omega arith), refl)
            | no ne ↦ let (y, ey, hy, ky) = column i (omega arith) in (y, ey, hy, ky ∙ kd)
          ],
          at,
          λ i lt. rest i (omega arith) ∙ rw (==_false i (suc n) (omega arith)) refl,
        )
  ]
