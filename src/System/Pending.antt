-- ===== src/System/Pending.antt =====
-- The operations in the circular array that the helper has not taken, oldest first.
use mathlib.Core.Path.{ap}
use hosk.Base.{
  ℕ, zero, suc, ◌+◌, ◌-◌, ◌%◌, ◌<◌, ◌≡◌, refl, sym, ◌∙◌, ◌≢◌, ◌⊎◌, some, arith, List, [], ◌∷◌, ◌++◌,
  get_or, set, length, get_or-set_self, get_or-set_ne, mod_step, leb, if◌then◌else◌, true,
  ℕ_discrete, ==_false,
}
use hosk.Enclave.{Ptr, Op, no_op, Enclave, opbuffer_insert, opbuffer_remove}
use hosk.Enclave.OpBuffer.{IsValid}
use hosk.Background.Drain.{slots}

-- How many there are.
abbrev pub gap : ℕ → ℕ → ℕ → ℕ
gap app size hlp = if leb hlp app then app - hlp else app + size - hlp

abbrev pub backlog : Enclave → ℕ
backlog e = gap e.app_idx e.buf_size e.hlp_idx

abbrev pub waiting : Enclave → List Op
waiting e = slots e.buf_size e.opbuffer e.hlp_idx (backlog e)

-- A write to the slot behind the last of them, in the two places where that slot can be.
slots-set :
    (size : ℕ) (buffer : List Op) (i n app : ℕ) (op : Op)
    → i < size
    → app < size
    → n < size
    → app < length buffer
    → (i + n ≡ app) ⊎ (i + n ≡ app + size)
    → slots size (set buffer app op) i (suc n) ≡ slots size buffer i n ++ op ∷ []
slots-set size buffer i zero app op in_i in_app in_n inside at =
    let z : i ≡ app = ground arith in rw (z, get_or-set_self buffer app op no_op inside) refl
slots-set size buffer i (suc n) app op in_i in_app in_n inside at =
    let next = mod_step i size in_i in
    let ne : app ≢ i = ground arith in
    let rest =
      slots-set size buffer ((i + 1) % size) n app op (ground arith) in_app (omega arith) inside
        (ground arith) in
    rw (get_or-set_ne buffer app i op no_op ne, rest) refl

insert-gap :
    (app size hlp : ℕ)
    → app < size
    → hlp < size
    → (app + 1) % size ≢ hlp
    → (gap ((app + 1) % size) size hlp ≡ suc (gap app size hlp))
      × (gap app size hlp < size)
      × ((hlp + gap app size hlp ≡ app) ⊎ (hlp + gap app size hlp ≡ app + size))
insert-gap app size hlp in_app in_hlp ne = ground (arith, mod_step app size in_app)

-- The helper's index does not reach the last two slots.
abbrev pub IsBehind : ℕ → ℕ → Type 0
IsBehind size hlp = (hlp ≡ 0) ⊎ (hlp + 2 < size)

remove-gap :
    (app size hlp : ℕ)
    → app < size
    → hlp < size
    → (hlp + 1) % size + 1 < app
    → IsBehind size hlp
    → (gap app size hlp ≡ suc (gap app size ((hlp + 1) % size))) × IsBehind size ((hlp + 1) % size)
remove-gap app size hlp in_app in_hlp more behind = ground (arith, mod_step hlp size in_hlp)

pub insert_parts :
    (key : ℕ) (p : Ptr) (e : Enclave)
    → (opbuffer_insert key p e).0 ≡ true
    → ((e.app_idx + 1) % e.buf_size ≢ e.hlp_idx)
      × ((opbuffer_insert key p e).1 ≡ record e {
        opbuffer = set e.opbuffer e.app_idx (record { key = key; node = p });
        app_idx = (e.app_idx + 1) % e.buf_size;
      })
unfolding opbuffer_insert
insert_parts key p e t = elim (ℕ_discrete ((e.app_idx + 1) % e.buf_size) e.hlp_idx) [
  | yes z ↦ absurd (ground arith)
  | no ne ↦ (ne, rw (==_false ((e.app_idx + 1) % e.buf_size) e.hlp_idx ne) refl)
]

pub insert-waiting :
    (key : ℕ) (p : Ptr) (e : Enclave)
    → IsValid e
    → (opbuffer_insert key p e).0 ≡ true
    → waiting (opbuffer_insert key p e).1 ≡ waiting e ++ record { key = key; node = p } ∷ []
insert-waiting key p e v t =
    let (room, eq) = insert_parts key p e t in
    let (longer, few, at) = insert-gap e.app_idx e.buf_size e.hlp_idx v.app_in v.hlp_in room in
    let op : Op = record { key = key; node = p } in
    ap waiting eq
    ∙ ap (slots e.buf_size (set e.opbuffer e.app_idx op) e.hlp_idx) longer
    ∙ slots-set e.buf_size e.opbuffer e.hlp_idx (backlog e) e.app_idx op v.hlp_in v.app_in few
        (omega (arith, v.storage, v.app_in)) at

pub remove_parts :
    (e e' : Enclave) (job : Op)
    → opbuffer_remove e ≡ (some job, e')
    → (job ≡ get_or e.opbuffer e.hlp_idx no_op)
      × (e' ≡ record e { hlp_idx = (e.hlp_idx + 1) % e.buf_size })
      × ((e.hlp_idx + 1) % e.buf_size + 1 < e.app_idx)
unfolding opbuffer_remove
remove_parts e e' job is = ground arith

pub remove-waiting :
    (e e' : Enclave) (job : Op)
    → IsValid e
    → IsBehind e.buf_size e.hlp_idx
    → opbuffer_remove e ≡ (some job, e')
    → (waiting e ≡ job ∷ waiting e') × IsBehind e'.buf_size e'.hlp_idx
remove-waiting e e' job v behind is =
    let (head, eq, some_more) = remove_parts e e' job is in
    let (less, behind') =
      remove-gap e.app_idx e.buf_size e.hlp_idx v.app_in v.hlp_in some_more behind in
    (
      ap (slots e.buf_size e.opbuffer e.hlp_idx) less
          ∙ ap (λ x. x ∷ waiting (record e { hlp_idx = (e.hlp_idx + 1) % e.buf_size })) (sym head)
          ∙ ap (λ x. job ∷ waiting x) (sym eq),
      rw eq behind',
    )
