-- ===== src/Workload.antt =====
-- The loop of the application thread in src/hosk/application.cpp: how it chooses the next operation,
-- counts its results, and passes its updates on to the helper thread.
pub mod Choices
pub mod Iteration
pub mod News
pub mod Populate
pub mod Populated
use hosk.Base.{
  ℕ, zero, suc, ◌+◌, ◌-◌, ◌*◌, ◌%◌, ◌^◌, ◌≡◌, ℤ, pos, negsuc, Bool, true, false, not, ◌&&◌, Option,
  none, some, List, [], ◌∷◌, ◌==◌, ltb, if◌then◌else◌,
}
use hosk.Enclave.{Ptr, Enclave, opbuffer_insert}
use hosk.Skiplist.{Heap, Cmd, pure, ◌>>=◌, null}
use hosk.Application.{OpType, contains, delete, insert}
use hosk.Operation.{do_operation}

-- `app_param`, less the seed, the barrier and the stop flag.
pub record AppParam : Type 0 where
  pub first : ℕ
  pub range : ℕ
  pub update : ℕ
  pub alternate : Bool
  pub effective : Bool

-- `app_res`
pub record AppRes : Type 0 where
  pub add : ℕ
  pub added : ℕ
  pub remove : ℕ
  pub removed : ℕ
  pub reads : ℕ  -- `contains`
  pub found : ℕ

-- `++` on `unsigned long`
abbrev pub bump : ℕ → ℕ
bump n = (n + 1) % 2 ^ 64

abbrev pub is_one : ℤ → Bool
is_one (pos n) = n == 1
is_one (negsuc _) = false

abbrev pub is_zero : ℤ → Bool
is_zero (pos n) = n == 0
is_zero (negsuc _) = false

abbrev pub is_negative : ℤ → Bool
is_negative (pos _) = false
is_negative (negsuc _) = true

abbrev pub reads_only : OpType → Bool
reads_only contains = true
reads_only delete = false
reads_only insert = false

-- An `int` as a `uint`.
abbrev pub to_key : ℤ → ℕ
to_key (pos n) = n
to_key (negsuc n) = 2 ^ 32 - suc n

-- A `uint` as an `int`, which wraps round.
abbrev pub to_int : ℕ → ℤ
to_int n = if ltb n (2 ^ 31) then pos n else negsuc (2 ^ 32 - suc n)

-- The counters and `last`; the parameter `int key` is the loop's `uint`.
unfoldable pub update_results : OpType → AppRes → ℤ → ℕ → ℤ → Bool → AppRes × ℤ
update_results contains ares result key last alternate = (
  record ares {
    reads = bump ares.reads;
    found = if is_one result then bump ares.found else ares.found;
  },
  last,
)
update_results insert ares result key last alternate = (
  record ares {
    add = bump ares.add;
    added = if is_one result then bump ares.added else ares.added;
  },
  if is_one result then to_int key else last,
)
update_results delete ares result key last alternate = (
  record ares {
    remove = bump ares.remove;
    removed = if is_one result then bump ares.removed else ares.removed;
  },
  if is_one result then negsuc 0 else if alternate then negsuc 0 else last,
)

-- What the loop keeps from one round to the next. The source leaves `otype` uninitialised.
pub record Loop (Seed : Type 0) : Type 0 where
  pub unext : Bool
  pub last : ℤ
  pub key : ℕ
  pub otype : OpType
  pub ares : AppRes
  pub seed : Seed

module _ {Seed : Type 0} (rand_range_re : ℕ → Seed → ℕ × Seed) (params : AppParam) where
  unfoldable pub get_unext : AppRes → Seed → Bool × Seed
  get_unext r seed =
      if params.effective
      then (
        ltb (100 * ((r.added + r.removed) % 2 ^ 64) % 2 ^ 64)
            (params.update * ((r.add + r.remove + r.reads) % 2 ^ 64) % 2 ^ 64),
        seed,
      )
      else (let (n, seed') = rand_range_re 100 seed in (ltb (n - 1) params.update, seed'))

  -- `key = rand_range_re(&params->seed, params->range)`, a `long` as a `uint`.
  abbrev draw : Loop Seed → Loop Seed
  draw l =
      let (n, seed) = rand_range_re params.range l.seed in
      record l { key = n % 2 ^ 32; seed = seed }

  -- The operation and the key of the next round.
  unfoldable pub choose : Loop Seed → Loop Seed
  choose l =
      if l.unext
      then if is_negative l.last
        then record (draw l) { otype = insert }
        else if params.alternate
        then record l { key = to_key l.last; otype = delete }
        else draw l
      else (let r = record l { otype = contains } in
          if params.alternate
          then if params.update == 0
            then if is_negative l.last
              then record r { key = params.first; last = to_int params.first }
              else record (draw r) { last = negsuc 0 }
            else if is_negative l.last
            then draw r
            else record r { key = to_key l.last }
          else draw r)

  -- The counters, `last` and `unext` after the operation.
  unfoldable pub settle : ℤ → Loop Seed → Loop Seed
  unfolding update_results get_unext
  settle result l =
      let (ares, last) = update_results l.otype l.ares result l.key l.last params.alternate in
      let (unext, seed) = get_unext ares l.seed in
      record l { unext = unext; last = last; ares = ares; seed = seed }

  -- A round; `none` where the array is full and the program exits.
  unfoldable pub iterate :
      (Heap → Ptr) → ℕ → Ptr → Loop Seed → Enclave → Cmd (Option (Loop Seed × Enclave))
  unfolding choose settle do_operation opbuffer_insert
  iterate malloc fuel sentinel l e = do
    let c = choose l
    (result, pnode) ← do_operation malloc fuel sentinel c.key c.otype null
    if not (is_zero result) && not (reads_only c.otype)
        then (let (done, e') = opbuffer_insert c.key pnode e in
            pure (if done then some (settle result c, e') else none))
        else pure (some (settle result c, e))

  -- The rounds of application_loop until it sees the stop flag.
  unfoldable pub application_loop :
      (Heap → Ptr) → ℕ → Ptr → ℕ → Loop Seed → Enclave → Cmd (Option (Loop Seed × Enclave))
  unfolding iterate
  application_loop malloc fuel sentinel zero l e = pure (some (l, e))
  application_loop malloc fuel sentinel (suc n) l e = do
    r ← iterate malloc fuel sentinel l e
    elim r [ none ↦ pure none | some (l', e') ↦ application_loop malloc fuel sentinel n l' e' ]
