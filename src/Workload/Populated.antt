-- ===== src/Workload/Populated.antt =====
-- initial_populate ends, and what it leaves.
use native.Mathlib.Nat.{mod-eq_of_lt}
use hosk.Workload.{to_int}
use mathlib.Core.Path.{ap, subst}
use hosk.Operation.Simulation.{Told}
use hosk.Base.{
  ℕ, zero, suc, ◌%◌, ◌^◌, ◌+◌, ◌<◌, ◌≡◌, refl, sym, ◌∙◌, inl, inr, ℤ, pos, true, false, [], ◌∷◌,
  arith, Bool-cases, mod_step, ltb-false, lt→ltb,
}
use hosk.Enclave.{Ptr, Enclave, opbuffer_insert}
use hosk.Skiplist.{Heap, Run, ok, null}
use hosk.Application.{insert}
use hosk.Index.{IsSkiplist}
use hosk.Operation.{do_operation}
use hosk.Operation.Set.{result_of, KeySet, Represents, put}
use hosk.Operation.Refinement.{Supplied, do_operation-Simulates}
use hosk.Workload.Populate.{InitParam, insert_loop, populate_loop, initial_populate, drawn}
use hosk.Workload.News.{
  AreInts, news, put_all, last_of, inserts, size, AllFit, Populates, news_old, news_new,
}

-- The array takes an operation while its last slot is free.
push_ok :
    (fuel key : ℕ) (node : Ptr) (e : Enclave) (h : Heap)
    → 0 < fuel
    → e.hlp_idx ≡ 0
    → e.app_idx + 1 < e.buf_size
    → let e' = (opbuffer_insert key node e).1 in
      (insert_loop fuel key node e h ≡ ok e' h)
      × (e'.hlp_idx ≡ 0)
      × (e'.app_idx ≡ e.app_idx + 1)
      × (e'.buf_size ≡ e.buf_size)
      × (e'.sentinel ≡ e.sentinel)
      × (e'.num_populate ≡ e.num_populate)
unfolding insert_loop opbuffer_insert
push_ok zero key node e h some_fuel z room = absurd (omega arith)
push_ok (suc k) key node e h some_fuel z room =
    ground (arith, mod_step e.app_idx e.buf_size (omega arith))

-- To put in a key that is there changes nothing.
put_old :
    (k : ℕ) (s : KeySet) (h : Heap) → s k ≡ true → Represents (put k true s) h → Represents s h
put_old k s h t same j = (λ q. (same j).0 (ground arith), λ x. ground (arith, (same j).1 x))

module _ {Seed : Type 0} (rand_range_re : ℕ → Seed → ℕ × Seed) (malloc : Heap → Ptr)
    (fuel : ℕ) where
  -- A key of 31 bits is the same as an `int`.
  int_key : (n : ℕ) → n < 2 ^ 31 → to_int (n % 2 ^ 32) ≡ pos n
  int_key n small =
      let same : n % 2 ^ 32 ≡ n = mod-eq_of_lt (omega arith) in
      rw (same, lt→ltb n (2 ^ 31) small) refl

  -- A round whose key is there already, and one whose key is new.
  old_round :
      (k i : ℕ) (params : InitParam Seed) (e : Enclave) (h : Heap) {h1 : Heap} {p : Ptr}
      → i < e.num_populate
      → (rand_range_re params.range params.seed).0 < 2 ^ 31
      → let (key, seed) = rand_range_re params.range params.seed in
        do_operation malloc fuel e.sentinel key insert null h ≡ ok (pos 0, p) h1
        → populate_loop rand_range_re malloc fuel (suc k) i params e h
          ≡ populate_loop rand_range_re malloc fuel k i (record params { seed = seed }) e h1
  unfolding populate_loop
  old_round k i params e h more small run =
      rw
        (
          lt→ltb i e.num_populate more,
          int_key (rand_range_re params.range params.seed).0 small,
          run,
        )
        refl

  new_round :
      (k i : ℕ) (params : InitParam Seed) (e : Enclave) (h : Heap) {e' : Enclave} {h1 : Heap}
      {p : Ptr}
      → i < e.num_populate
      → (rand_range_re params.range params.seed).0 < 2 ^ 31
      → let (key, seed) = rand_range_re params.range params.seed in
        do_operation malloc fuel e.sentinel key insert null h ≡ ok (pos 1, p) h1
        → insert_loop fuel key p e h1 ≡ ok e' h1
        → populate_loop rand_range_re malloc fuel (suc k) i params e h
          ≡ populate_loop rand_range_re malloc fuel k
              (i + 1)
              (record params { seed = seed; last = key })
              e'
              h1
  unfolding populate_loop
  new_round k i params e h more small run pushed =
      rw
        (
          lt→ltb i e.num_populate more,
          int_key (rand_range_re params.range params.seed).0 small,
          run,
          pushed,
        )
        refl

  module _ {height : Ptr → ℕ} {sentinel : Ptr} where
    loop-Populates :
        (n k i left : ℕ) (s : KeySet) (h : Heap) (params : InitParam Seed) (e : Enclave)
        → e.sentinel ≡ sentinel
        → IsSkiplist height sentinel h
        → Represents s h
        → e.num_populate ≡ i + left
        → size (news (drawn rand_range_re malloc fuel n params.range params.seed) left s) ≡ left
        → e.hlp_idx ≡ 0
        → e.app_idx + left < e.buf_size
        → 0 < fuel
        → AreInts (drawn rand_range_re malloc fuel n params.range params.seed)
        → AllFit height sentinel fuel
            (inserts (drawn rand_range_re malloc fuel n params.range params.seed))
        → Supplied malloc fuel sentinel
            (inserts (drawn rand_range_re malloc fuel n params.range params.seed))
            h
        → n < k
        → Populates height sentinel s e params.last
            (news (drawn rand_range_re malloc fuel n params.range params.seed) left s)
            (populate_loop rand_range_re malloc fuel k i params e h)
    unfolding populate_loop
    loop-Populates n zero i left s h params e es whole same total enough z room some_fuel ints fits
          supply more =
        absurd (omega arith)
    loop-Populates zero (suc k) i left s h params e es whole same total enough z room some_fuel ints
          fits supply more =
        (
          params,
          h,
          [],
          rw (ltb-false i e.num_populate (omega arith)) refl,
          whole,
          same,
          refl,
          tt,
          refl,
        )
    loop-Populates (suc n) (suc k) i zero s h params e es whole same total enough z room some_fuel
          ints fits supply more =
        (
          params,
          h,
          [],
          rw (ltb-false i e.num_populate (omega arith)) refl,
          whole,
          same,
          refl,
          tt,
          refl,
        )
    loop-Populates (suc n) (suc k) i (suc left) s h params e es whole same total enough z room
          some_fuel (small, ints) (fit, fits) (supply, supplies) more =
        let key = (rand_range_re params.range params.seed).0 in
        let ks =
          drawn rand_range_re malloc fuel n params.range
            (rand_range_re params.range params.seed).1 in
        let params' : InitParam Seed = record params {
          seed = (rand_range_re params.range params.seed).1;
        } in
        let (h1, p, run1, whole1, same1, told, _) =
          do_operation-Simulates malloc h s fuel key insert null whole same fit supply in
        let ends : do_operation malloc fuel e.sentinel key insert null h
            ≡ ok (result_of insert (s key), p) h1 =
          rw es run1 in
        elim (Bool-cases (s key)) [
          | inl t ↦
              let eq = news_old key ks left s t in
              let (params2, h2, jobs, run2, whole2, same2, keys, all, last) =
                loop-Populates n k i (suc left) s h1 params' e es whole1 (put_old key s h1 t same1)
                  total (sym (ap size eq) ∙ enough) z room some_fuel ints fits (supplies _ h1 run1)
                  (omega arith) in
              (
                params2,
                h2,
                jobs,
                old_round k i params e h (omega arith) small
                      (ends ∙ ap {B = Run (ℤ × Ptr)} (λ b. ok (result_of insert b, p) h1) t)
                    ∙ run2,
                whole2,
                subst (λ l. Represents (put_all l s) h2) (sym eq) same2,
                keys ∙ sym eq,
                all,
                last ∙ ap (λ l. last_of l params.last) (sym eq),
              )
          | inr f ↦
              let eq = news_new key ks left s f in
              let few : size (news ks left (put key true s)) ≡ left =
                omega (arith, ap size eq, enough) in
              let (pushed, z', app, buf, sent, num) =
                push_ok fuel key p e h1 some_fuel z (omega arith) in
              let e1 = (opbuffer_insert key p e).1 in
              let told_new : Told insert false key null p h1 =
                subst (λ b. Told insert b key null p h1) f told in
              let (params2, h2, jobs, run2, whole2, same2, keys, all, last) =
                loop-Populates n k (i + 1) left (put key true s) h1 (record params' { last = key })
                  e1 (sent ∙ es) whole1 same1 (omega arith) few z' (omega arith) some_fuel ints fits
                  (supplies _ h1 run1) (omega arith) in
              (
                params2,
                h2,
                record { key = key; node = p } ∷ jobs,
                new_round k i params e h (omega arith) small
                      (ends ∙ ap {B = Run (ℤ × Ptr)} (λ b. ok (result_of insert b, p) h1) f) pushed
                    ∙ run2,
                whole2,
                subst (λ l. Represents (put_all l s) h2) (sym eq) same2,
                ap (λ l. key ∷ l) keys ∙ sym eq,
                (told_new.0, all),
                last ∙ ap (λ l. last_of l params.last) (sym eq),
              )
        ]

-- On a skip list that represents a set of keys, for an enclave with an array from its start on and
-- room in it for as many operations as keys are asked for, where among the first `n` keys drawn there
-- are that many that are new, and all of them are nonzero and below 2 ^ 31, which an `int` holds, with
-- more fuel than the index is high and the key is large, with malloc supplying a node whenever an
-- insert begins, and fuel for more than `n` rounds: initial_populate ends without a fault; it adds just the first new keys to the set, as
-- many as asked for; it puts them into the array in the order in which they were drawn, each with a
-- node, and no other operation; and it stores the last of them through `last`.
pub initial_populate-Populates :
    {Seed : Type 0} (rand_range_re : ℕ → Seed → ℕ × Seed) (malloc : Heap → Ptr) (fuel n k : ℕ)
    {height : Ptr → ℕ} (s : KeySet) (h : Heap) (params : InitParam Seed) (e : Enclave)
    → let ks = drawn rand_range_re malloc fuel n params.range params.seed in
      IsSkiplist height e.sentinel h
      → Represents s h
      → size (news ks e.num_populate s) ≡ e.num_populate
      → e.hlp_idx ≡ 0
      → e.app_idx + e.num_populate < e.buf_size
      → 0 < fuel
      → AreInts ks
      → AllFit height e.sentinel fuel (inserts ks)
      → Supplied malloc fuel e.sentinel (inserts ks) h
      → n < k
      → Populates height e.sentinel s e params.last
          (news ks e.num_populate s)
          (initial_populate rand_range_re malloc fuel k params e h)
unfolding initial_populate
initial_populate-Populates rand_range_re malloc fuel n k s h params e whole same enough z room
      some_fuel ints fits supply more =
    loop-Populates rand_range_re malloc fuel n k 0 e.num_populate s h params e refl whole same
      (omega arith) enough z room some_fuel ints fits supply more
