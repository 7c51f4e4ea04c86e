-- ===== src/Enclave/OpBuffer/Stall.antt =====
-- How much the helper can ever take out of the array, and when it takes nothing.
use hosk.Base.{ℕ, ◌+◌, ◌*◌, ◌≤◌, ◌<◌, ◌≡◌, refl, ◌∙◌, List, [], ◌∷◌, arith, mod_step, length}
use hosk.Enclave.{Ptr, Core, Enclave, opbuffer_insert, opbuffer_remove}
use hosk.Enclave.OpBuffer.{Event, insert, remove, Trace, step, run, start}
use hosk.Enclave.OpBuffer.Queue.{Inv-run, Inv-start}

-- The application index is behind the helper's, which is not the last.
pub record IsWrapped (e : Enclave) : Type 0 where
  pub behind : e.app_idx < e.hlp_idx
  pub inside : e.hlp_idx + 1 < e.buf_size

step-IsWrapped :
    (t : Trace) (x : Event)
    → IsWrapped t.enclave
    → IsWrapped (step t x).enclave × ((step t x).removed ≡ t.removed)
unfolding step opbuffer_insert opbuffer_remove
step-IsWrapped t (insert key node) w = ground (arith, mod_step t.enclave.app_idx t.enclave.buf_size)
step-IsWrapped t remove w = ground (arith, mod_step t.enclave.hlp_idx t.enclave.buf_size)

-- Once the application index has gone round and is behind the helper's, with the helper's not the
-- last, no sequence of calls takes another operation out, and the enclave stays in that condition.
pub run-stalls :
    (xs : List Event) (t : Trace)
    → IsWrapped t.enclave
    → IsWrapped (run t xs).enclave × ((run t xs).removed ≡ t.removed)
unfolding run
run-stalls [] t w = (w, refl)
run-stalls (x ∷ xs) t w =
    let (w', same) = step-IsWrapped t x w in
    let (w'', rest) = run-stalls xs (step t x) w' in (w'', rest ∙ same)

-- From a new enclave with an array of `n` entries, at least three, no sequence of calls ever takes
-- more than `n` - 3 operations out, nor puts `2 * n` in.
pub run-bounded :
    (c : Core) (sock : ℕ) (s : Ptr) (freq e_num n seed : ℕ) (xs : List Event)
    → 3 ≤ n
    → let t = run (start c sock s freq e_num n seed) xs in
      (length t.removed + 3 ≤ n) × (length t.inserted < 2 * n)
run-bounded c sock s freq e_num n seed xs h = omega (arith, app_in, hlp_room, count, laps)
  where
    open (Inv-run xs (Inv-start c sock s freq e_num n seed (omega arith))) use {
      app_in, hlp_room, count, laps,
    }
