-- ===== src/Levels.antt =====
-- The functions of src/hosk/helper.cpp that raise and lower the levels of the index layer. Loops run
-- on fuel; a variable that a loop changes is an argument of it.
pub mod Above
pub mod Add
pub mod Bottom
pub mod Raise
pub mod Rounds
pub mod Row
pub mod Skip
pub mod RowRound
pub mod Spacing
use hosk.Base.{
  ℕ, zero, suc, ◌+◌, ◌-◌, ◌%◌, ◌^◌, Bool, true, false, not, ◌&&◌, ◌==◌, ltb, leb, if◌then◌else◌,
}
use hosk.Enclave.{Ptr}
use hosk.Skiplist.{Cmd, out_of_fuel, pure, ◌>>=◌, ◌>>◌, assert, null, load_node, store_node}
use hosk.Skiplist.Upper.{
  Memory, load_inode, store_inode, load_mnode, store_mnode, inode_new, inode_delete,
}

-- "get the correct index above and behind": the two pointers above and above_prev, where `inode` is
-- the variable that the loop compares with, `inode` or `iprev_tall`.
unfoldable pub find_above : ℕ → Ptr → Ptr → Ptr → ℕ → Cmd (Ptr × Ptr)
find_above zero inode above above_prev key = λ _. out_of_fuel
find_above (suc k) inode above above_prev key =
    if above == null then pure (above, above_prev) else do
      a ← load_inode above
      m ← load_mnode a.intermed
      let onward = do
        first ← load_inode inode
        prev' ←
            (if a.right == first.right
              then pure above_prev
              else do p ← load_inode above_prev; pure p.right)
        find_above k inode a.right prev' key
      if ltb m.key key then onward else pure (above, above_prev)

-- "add a new index item above node": the new item, over the item `down` of the level below.
unfoldable pub add_above : Memory → ℕ → Ptr → Ptr → Ptr → Cmd Ptr
add_above mem level down intermed above_prev = do
  a ← load_inode above_prev
  inew ← inode_new mem a.right down intermed
  b ← load_inode above_prev
  store_inode above_prev (record b { right = inew })
  m ← load_mnode intermed
  store_mnode intermed (record m { level = level })
  n ← load_node m.node
  if ltb n.level level then store_node m.node (record n { level = level }) else pure tt
  pure inew

-- The loop of bg_raise_mlevel; `mnode` is its argument, at which it looks in every round.
unfoldable pub raise_mnodes : Memory → ℕ → Ptr → Ptr → Ptr → Ptr → Ptr → Ptr → Ptr → ℕ → Cmd ℕ
raise_mnodes mem zero mnode prev node next inode above above_prev raised = λ _. out_of_fuel
raise_mnodes mem (suc k) mnode prev node next inode above above_prev raised =
    if next == null then pure raised else do
      s ← load_mnode mnode
      p ← load_mnode prev
      n ← load_mnode node
      x ← load_mnode next
      let raise = do
        (_, behind) ← find_above k inode above above_prev n.key
        inew ← add_above mem 1 null node behind
        y ← load_mnode next
        raise_mnodes mem k mnode node next y.next inew inew inew 1
      let leave = raise_mnodes mem k mnode node next x.next inode above above_prev raised
      if not s.marked && ((p.level == 0) && (n.level == 0) && (x.level == 0)) then raise else leave

unfoldable pub bg_raise_mlevel : Memory → ℕ → Ptr → Ptr → Cmd ℕ
bg_raise_mlevel mem fuel mnode inode = do
  assert (not (inode == null))
  m ← load_mnode mnode
  if m.next == null then pure 0 else do
    n ← load_mnode m.next
    raise_mnodes mem fuel mnode mnode m.next n.next inode inode inode 0

-- "skip deleted nodes": the loop within the loop of bg_raise_ilevel.
unfoldable pub skip_marked : ℕ → Ptr → Ptr → Ptr → Cmd (Ptr × Ptr)
skip_marked zero iprev index inext = λ _. out_of_fuel
skip_marked (suc k) iprev index inext = do
  i ← load_inode index
  m ← load_mnode i.intermed
  let onward = do
    p ← load_inode iprev
    store_inode iprev (record p { right = inext })
    if inext == null
        then pure (index, inext)
        else do x ← load_inode inext; skip_marked k iprev inext x.right
  if m.marked then onward else pure (index, inext)

-- The loop of bg_raise_ilevel.
unfoldable pub raise_inodes : Memory → ℕ → ℕ → Ptr → Ptr → Ptr → Ptr → Ptr → ℕ → Cmd ℕ
raise_inodes mem height zero iprev index above above_prev iprev_tall raised = λ _. out_of_fuel
raise_inodes mem height (suc k) iprev index above above_prev iprev_tall raised =
    if index == null then pure raised else do
      i ← load_inode index
      if i.right == null then pure raised else do
        (index, inext) ← skip_marked k iprev index i.right
        if inext == null then pure raised else do
          p ← load_inode iprev
          pm ← load_mnode p.intermed
          j ← load_inode index
          jm ← load_mnode j.intermed
          x ← load_inode inext
          xm ← load_mnode x.intermed
          let raise = do
            (_, behind) ← find_above k iprev_tall above above_prev jm.key
            inew ← add_above mem (height + 1) index j.intermed behind
            raise_inodes mem height k index inext inew inew inew 1
          let leave = raise_inodes mem height k index inext above above_prev iprev_tall raised
          if leb pm.level height && (leb jm.level height && leb xm.level height)
              then raise
              else leave

unfoldable pub bg_raise_ilevel : Memory → ℕ → Ptr → Ptr → ℕ → Cmd ℕ
bg_raise_ilevel mem fuel iprev iprev_tall height = do
  assert (not (iprev == null))
  assert (not (iprev_tall == null))
  i ← load_inode iprev
  raise_inodes mem height fuel iprev i.right iprev_tall iprev_tall iprev_tall 0

-- `--` on `unsigned int`
abbrev pub pred : ℕ → ℕ
pred n = (n + (2 ^ 32 - 1)) % 2 ^ 32

-- The two loops of bg_lower_ilevel.
unfoldable pub lower_level : ℕ → Ptr → Cmd (Unit {0})
lower_level zero p = λ _. out_of_fuel
lower_level (suc k) p = if p == null then pure tt else do
  i ← load_inode p
  store_inode p (record i { down = null })
  m ← load_mnode i.intermed
  store_mnode i.intermed (record m { level = pred m.level })
  n ← load_node m.node
  if ltb 0 n.level then store_node m.node (record n { level = pred n.level }) else pure tt
  lower_level k i.right

unfoldable pub free_level : Memory → ℕ → Ptr → Cmd (Unit {0})
free_level mem zero p = λ _. out_of_fuel
free_level mem (suc k) p =
    if p == null then pure tt else do i ← load_inode p; inode_delete mem p; free_level mem k i.right

unfoldable pub bg_lower_ilevel : Memory → ℕ → Ptr → Cmd (Unit {0})
bg_lower_ilevel mem fuel new_low = do
  i ← load_inode new_low
  lower_level fuel new_low
  free_level mem fuel i.down
