-- ===== src/Workload/Populate.antt =====
-- initial_populate of src/hosk/application.cpp: it inserts random keys until as many as asked for are
-- new, and puts each new one into the enclave's array.
use hosk.Base.{
  ℕ, zero, suc, ◌+◌, ◌-◌, ◌%◌, ◌^◌, ℤ, pos, negsuc, not, List, [], ◌∷◌, ltb, if◌then◌else◌,
}
use hosk.Enclave.{Ptr, Enclave, opbuffer_insert}
use hosk.Skiplist.{Heap, Cmd, pure, out_of_fuel, ◌>>=◌, null}
use hosk.Application.{insert}
use hosk.Operation.{do_operation}
use hosk.Workload.{is_zero, to_int, to_key}

-- `init_param`; `last` is the number that its field points to.
pub record InitParam (Seed : Type 0) : Type 0 where
  pub num : ℕ
  pub range : ℕ
  pub seed : Seed
  pub last : ℕ

-- An `int` as an `unsigned long`: its sign is extended.
abbrev pub extend : ℤ → ℕ
extend (pos n) = n
extend (negsuc n) = 2 ^ 64 - suc n

-- `while(!obj->opbuffer_insert(key, pnode)){}`, on fuel.
unfoldable pub insert_loop : ℕ → ℕ → Ptr → Enclave → Cmd Enclave
insert_loop zero key pnode e = λ _. out_of_fuel
insert_loop (suc k) key pnode e =
    let (done, e') = opbuffer_insert key pnode e in
    let again = insert_loop k key pnode e' in if done then pure e' else again

module _ {Seed : Type 0} (rand_range_re : ℕ → Seed → ℕ × Seed) (malloc : Heap → Ptr)
    (fuel : ℕ) where
  -- The loop from `i` on, on fuel.
  unfoldable pub populate_loop : ℕ → ℕ → InitParam Seed → Enclave → Cmd (InitParam Seed × Enclave)
  populate_loop zero i params e = λ _. out_of_fuel
  populate_loop (suc k) i params e =
      let (n, seed) = rand_range_re params.range params.seed in
      let key : ℤ = to_int (n % 2 ^ 32) in
      let params' = record params { seed = seed } in
      if not (ltb i e.num_populate) then pure (params, e) else (do
        (result, pnode) ← do_operation malloc fuel e.sentinel (to_key key) insert null
        let present = populate_loop k i params' e
        let added = do
          e' ← insert_loop fuel (extend key) pnode e
          populate_loop k (i + 1) (record params' { last = to_key key }) e'
        if is_zero result then present else added)

  unfoldable pub initial_populate : ℕ → InitParam Seed → Enclave → Cmd (InitParam Seed × Enclave)
  unfolding populate_loop
  initial_populate k params e = populate_loop k 0 params e

  -- The keys of the first draws.
  abbrev pub drawn : ℕ → ℕ → Seed → List ℕ
  drawn zero range seed = []
  drawn (suc n) range seed =
      let (key, seed') = rand_range_re range seed in key ∷ drawn n range seed'
