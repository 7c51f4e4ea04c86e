-- ===== src/Enclave/OpBuffer/Queue.antt =====
-- The array between the two threads as a queue: what every sequence of calls keeps.
use hosk.Base.{
  ℕ, ◌+◌, ◌%◌, ◌≤◌, ◌<◌, ◌≡◌, refl, ◌∙◌, ◌⊎◌, inl, inr, List, [], ◌∷◌, arith, Bool-cases, mod_step,
  ◌==◌, leb, length, length-append, length-set, length-replicate, get_or, take, get_or-set_self,
  get_or-set_ne, get_or-append_left, get_or-append_end, take-append_left, take-snoc,
}
use hosk.Enclave.{Ptr, Op, no_op, Core, Enclave, new_enclave, opbuffer_insert, opbuffer_remove}
use hosk.Enclave.OpBuffer.{Event, insert, remove, Trace, step, run, start}

-- The application index has gone round at most once, and the helper index never.
pub record Inv (n : ℕ) (t : Trace) : Type 0 where
  pub size : t.enclave.buf_size ≡ n
  pub storage : length t.enclave.opbuffer ≡ n
  pub app_in : t.enclave.app_idx < n
  pub hlp_room : (t.enclave.hlp_idx ≡ 0) ⊎ (t.enclave.hlp_idx + 2 < n)
  pub count : length t.removed ≡ t.enclave.hlp_idx
  pub laps :
      ((length t.inserted ≡ t.enclave.app_idx) × (t.enclave.hlp_idx ≤ t.enclave.app_idx))
      ⊎ ((length t.inserted ≡ t.enclave.app_idx + n) × (t.enclave.app_idx < t.enclave.hlp_idx))
  pub prefix : t.removed ≡ take t.enclave.hlp_idx t.inserted
  pub slots :
      (i : ℕ)
      → t.enclave.hlp_idx ≤ i
      → i < n
      → i < length t.inserted
      → get_or t.enclave.opbuffer i no_op ≡ get_or t.inserted i no_op

module _ {n : ℕ} {t : Trace} (inv : Inv n t) where
  open inv use {size, storage, app_in, hlp_room, count, laps, prefix, slots}

  abbrev e : Enclave
  e = t.enclave

  insert-Inv : (key : ℕ) (node : Ptr) → Inv n (step t (insert key node))
  unfolding step opbuffer_insert
  insert-Inv key node = elim (Bool-cases ((e.app_idx + 1) % e.buf_size == e.hlp_idx)) [
    | inl full ↦ rw full inv
    | inr room ↦ rw room (record {
      size = size;
      storage = length-set e.opbuffer e.app_idx op ∙ storage;
      app_in = ground (arith, round);
      hlp_room = hlp_room;
      count = count;
      laps = ground (arith, round, length-append t.inserted (op ∷ []));
      prefix = ground (arith, take-append_left e.hlp_idx t.inserted (op ∷ []));
      slots = λ i lo hi lt. ground (
        arith,
        length-append t.inserted (op ∷ []),
        slots i,
        get_or-set_self e.opbuffer i op no_op,
        get_or-set_ne e.opbuffer e.app_idx i op no_op,
        get_or-append_left t.inserted (op ∷ []) i no_op,
        get_or-append_end t.inserted op i no_op,
      );
    })
  ]
    where
      op : Op
      op = record { key = key; node = node }

      round :
          (((e.app_idx + 1) % n ≡ e.app_idx + 1) × (e.app_idx + 1 < n))
          ⊎ (((e.app_idx + 1) % n ≡ 0) × (e.app_idx + 1 ≡ n))
      round = mod_step e.app_idx n app_in

  remove-Inv : Inv n (step t remove)
  unfolding step opbuffer_remove
  remove-Inv = elim (Bool-cases (leb e.app_idx ((e.hlp_idx + 1) % e.buf_size + 1))) [
    | inl few ↦ rw few inv
    | inr more ↦ rw more (record {
      size = size;
      storage = storage;
      app_in = app_in;
      hlp_room = ground (arith, round);
      count =
          ground (arith, round, length-append t.removed (get_or e.opbuffer e.hlp_idx no_op ∷ []));
      laps = ground (arith, round);
      prefix = ground (arith, round, take-snoc e.hlp_idx t.inserted no_op, slots e.hlp_idx);
      slots = λ i lo hi lt. ground (arith, round, slots i);
    })
  ]
    where
      round :
          (((e.hlp_idx + 1) % n ≡ e.hlp_idx + 1) × (e.hlp_idx + 1 < n))
          ⊎ (((e.hlp_idx + 1) % n ≡ 0) × (e.hlp_idx + 1 ≡ n))
      round = mod_step e.hlp_idx n (ground (arith, hlp_room, app_in))

Inv-step : {n : ℕ} {t : Trace} → Inv n t → (x : Event) → Inv n (step t x)
Inv-step inv (insert key node) = insert-Inv inv key node
Inv-step inv remove = remove-Inv inv

pub Inv-run : (xs : List Event) {n : ℕ} {t : Trace} → Inv n t → Inv n (run t xs)
unfolding run
Inv-run [] inv = inv
Inv-run (x ∷ xs) inv = Inv-run xs (Inv-step inv x)

pub Inv-start :
    (c : Core) (sock : ℕ) (s : Ptr) (freq e_num n seed : ℕ)
    → 0 < n
    → Inv n (start c sock s freq e_num n seed)
unfolding start new_enclave
Inv-start c sock s freq e_num n seed h = record {
  size = refl;
  storage = length-replicate n no_op;
  app_in = h;
  hlp_room = inl refl;
  count = refl;
  laps = inl (refl, omega arith);
  prefix = refl;
  slots = λ i lo hi lt. absurd (omega arith);
}

-- From a new enclave with an array of `n` entries, `n` positive, whatever calls the two threads
-- make and in whatever order, the operations that the helper has taken out are exactly the first
-- ones that the application has put in, in the same order: none is lost, changed, repeated or
-- reordered.
pub run-fifo :
    (c : Core) (sock : ℕ) (s : Ptr) (freq e_num n seed : ℕ) (xs : List Event)
    → 0 < n
    → let t = run (start c sock s freq e_num n seed) xs in
      t.removed ≡ take (length t.removed) t.inserted
run-fifo c sock s freq e_num n seed xs h = rw inv.count inv.prefix
  where
    inv : Inv n (run (start c sock s freq e_num n seed) xs)
    inv = Inv-run xs (Inv-start c sock s freq e_num n seed h)
