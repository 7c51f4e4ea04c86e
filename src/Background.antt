-- ===== src/Background.antt =====
-- The helper thread of src/hosk/helper.cpp: update_index_layer and helper_loop.
pub mod Drain
pub mod Column
pub mod Lowest
pub mod Top
pub mod Rows
pub mod Second
pub mod Update
use hosk.Base.{
  ℕ, zero, suc, ◌+◌, ◌-◌, ◌*◌, ◌%◌, ◌^◌, Bool, true, false, not, ◌&&◌, ◌||◌, Option, none, some,
  ◌==◌, ltb, leb, if◌then◌else◌,
}
use hosk.Enclave.{Ptr, Op, Enclave, opbuffer_remove}
use hosk.Skiplist.{Cmd, out_of_fuel, pure, ◌>>=◌, ◌>>◌, assert, null, load_node, store_node}
use hosk.Skiplist.Upper.{Memory, load_inode, load_mnode, store_mnode, inode_new}
use hosk.Helper.{update_intermediate_layer}
use hosk.Sweep.{Dels, bg_trav_mnodes, reset_index}
use hosk.Levels.{bg_raise_mlevel, bg_raise_ilevel, bg_lower_ilevel, pred}

-- `MAX_LEVELS`
abbrev pub max_levels : ℕ
max_levels = 128

-- "get the first index node at each level": `i` counts down; the array `inodes` is a function, and
-- the second result is where the column ends.
unfoldable pub first_inodes : ℕ → Ptr → (ℕ → Ptr) → Cmd ((ℕ → Ptr) × Ptr)
first_inodes zero inode inodes = pure (inodes, inode)
first_inodes (suc i) inode inodes = do
  assert (not (inode == null))
  x ← load_inode inode
  first_inodes i x.down (λ a. if a == i then inode else inodes a)

-- "add a new index level": the new sentinel over the old one.
unfoldable pub add_level : Memory → Ptr → Cmd Ptr
add_level mem sentinel = do
  s ← load_inode sentinel
  new ← inode_new mem null sentinel s.intermed
  t ← load_inode new
  m ← load_mnode t.intermed
  let level = (m.level + 1) % 2 ^ 32
  store_mnode t.intermed (record m { level = level })
  n ← load_node m.node
  if ltb n.level level then store_node m.node (record n { level = level }) else pure tt
  pure new

-- "raise the index level nodes", on fuel: the loop's `i` and `raised`.
unfoldable pub raise_levels : Memory → ℕ → ℕ → Ptr → (ℕ → Ptr) → ℕ → ℕ → Cmd ℕ
raise_levels mem fuel zero sentinel inodes i raised = λ _. out_of_fuel
raise_levels mem fuel (suc k) sentinel inodes i raised = do
  s ← load_inode sentinel
  m ← load_mnode s.intermed
  let onward = do
    assert (ltb i (max_levels - 1))
    raised' ← bg_raise_ilevel mem fuel (inodes i) (inodes (i + 1)) (i + 1)
    raise_levels mem fuel k sentinel inodes (i + 1) raised'
  if ltb i (pred m.level) then onward else pure raised

-- The sentinel and the array after bg_raise_mlevel: a second level where there was one.
unfoldable pub second_level : Memory → ℕ → Ptr → (ℕ → Ptr) → Cmd (Ptr × (ℕ → Ptr))
second_level mem raised sentinel inodes = do
  s ← load_inode sentinel
  m ← load_mnode s.intermed
  let more = do
    new ← add_level mem sentinel
    assert (inodes 1 == null)
    pure (new, λ a. if a == 1 then new else inodes a)
  if not (raised == 0) && (m.level == 1) then more else pure (sentinel, inodes)

-- "traverse mnodes and raise levels": the count of raised nodes and the array of the first index nodes.
unfoldable pub raise_bottom : Memory → ℕ → Ptr → Cmd (ℕ × (ℕ → Ptr))
raise_bottom mem fuel sentinel = do
  s ← load_inode sentinel
  m ← load_mnode s.intermed
  assert (ltb m.level max_levels)
  (inodes, end) ← first_inodes m.level sentinel (λ _. null)
  assert (end == null)
  bottom ← load_inode (inodes 0)
  raised ← bg_raise_mlevel mem fuel bottom.intermed (inodes 0)
  pure (raised, inodes)

-- `tall_deleted > non_deleted * 10` on `int`, which wraps round.
abbrev pub asks_lower : Dels → Bool
asks_lower d = ltb ((d.non_del * 10 + 2 ^ 31) % 2 ^ 32) ((d.tall_del + 2 ^ 31) % 2 ^ 32)

-- The enclave's sentinel and its two counters afterwards.
unfoldable pub update_index_layer : Memory → ℕ → Ptr → Dels → Cmd (Ptr × Dels)
update_index_layer mem fuel sentinel d = do
  d ← bg_trav_mnodes fuel sentinel d
  (raised, inodes) ← raise_bottom mem fuel sentinel
  (sentinel, inodes) ← second_level mem raised sentinel inodes
  raised ← raise_levels mem fuel fuel sentinel inodes 0 raised
  sentinel ← (if raised == 0 then pure sentinel else add_level mem sentinel)
  if asks_lower d && not (inodes 1 == null) then bg_lower_ilevel mem fuel (inodes 1) else pure tt
  pure (sentinel, d)

-- "Update intermediate layer from op array", on fuel.
unfoldable pub drain : Memory → ℕ → ℕ → Enclave → Cmd Enclave
drain mem fuel zero e = λ _. out_of_fuel
drain mem fuel (suc k) e =
    let (taken, e') = opbuffer_remove e in
    elim taken [
      | none ↦ pure e
      | some job ↦ update_intermediate_layer mem fuel e.sentinel job >> drain mem fuel k e'
    ]

module _ (rand_range_re : ℕ → ℕ → ℕ × ℕ) (mem : Memory) (fuel : ℕ) where
  -- A round of helper_loop.
  unfoldable pub helper_round : Bool → Enclave → Cmd Enclave
  helper_round update_all e = do
    e ← drain mem fuel fuel e
    let (n, seed) = rand_range_re 100 e.update_seed
    let e = if update_all then e else record e { update_seed = seed }
    let update = do
      (sentinel, d) ←
          update_index_layer mem fuel e.sentinel
            (record { non_del = e.non_del; tall_del = e.tall_del })
      pure (record e { sentinel = sentinel; non_del = d.non_del; tall_del = d.tall_del })
    if update_all || ltb n e.update_freq then update else pure e

  -- The rounds until the thread sees that `finished` is set, `n` of them.
  unfoldable pub helper_rounds : ℕ → Bool → Enclave → Cmd Enclave
  helper_rounds zero update_all e = pure e
  helper_rounds (suc n) update_all e = do
    e ← helper_round update_all e
    helper_rounds n update_all e

  unfoldable pub helper_loop : ℕ → Enclave → Cmd Enclave
  helper_loop n e = do
    let clear = do
      new ← reset_index mem fuel e.sentinel
      pure (record e { sentinel = new; reset_index = false })
    e' ← (if e.reset_index then clear else pure e)
    helper_rounds n e.populate_init e'
