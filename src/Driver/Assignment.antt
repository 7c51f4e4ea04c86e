-- ===== src/Driver/Assignment.antt =====
-- The cores that main of src/hosk/test.cpp gives to the enclaves: round the sockets, and then the next
-- core of each.
use native.Mathlib.Nat.{mul-add, mul-le-mul_left}
use hosk.Base.{
  ℕ, zero, suc, ◌+◌, ◌*◌, ◌≤◌, ◌<◌, ◌≡◌, refl, List, [], ◌∷◌, ◌==◌, if◌then◌else◌, length, arith,
  ==_true, ==_false, ℕ_discrete, dec_lt,
}

-- `enclave_num`, `sock_num` and the core's number of a `tinit_args`.
pub record Assigned : Type 0 where
  pub enclave_num : ℕ
  pub sock : ℕ
  pub core : ℕ

-- The rounds from `i` on, `left` of them, with `sock_id` and `core_id`.
unfoldable pub assign : ℕ → ℕ → ℕ → ℕ → ℕ → List Assigned
assign num_sockets sock core i zero = []
assign num_sockets sock core i (suc left) =
    let same = assign num_sockets (sock + 1) core (i + 1) left in
    let next = assign num_sockets 0 (core + 1) (i + 1) left in
    record { enclave_num = i; sock = sock; core = core }
    ∷ (if sock + 1 == num_sockets then next else same)

module _ (sockets cores : ℕ) where
  -- Enclaves with consecutive numbers from `i` on, each on the core that its number names.
  abbrev pub Spread : ℕ → List Assigned → Type 0
  Spread i [] = Unit {0}
  Spread i (a ∷ rest) =
      ((a.enclave_num ≡ i)
        × (a.sock < sockets)
        × (a.core < cores)
        × (sockets * a.core + a.sock ≡ i))
      × Spread (i + 1) rest

  carry : (core : ℕ) → sockets * (core + 1) ≡ sockets * core + sockets
  carry core = grind (arith, mul-add sockets core 1)

  -- A core that an earlier enclave has is within the array.
  within : (sock core : ℕ) → sockets * core + sock < sockets * cores → core < cores
  within sock core lt = elim (dec_lt core cores) [
    | yes small ↦ small
    | no large ↦
        let le : sockets * cores ≤ sockets * core = mul-le-mul_left sockets (omega arith) in
        absurd (omega arith)
  ]

  assign-Spread_from :
      (left i sock core : ℕ)
      → sock < sockets
      → sockets * core + sock ≡ i
      → i + left ≤ sockets * cores
      → Spread i (assign sockets sock core i left)
        × (length (assign sockets sock core i left) ≡ left)
  unfolding assign
  assign-Spread_from zero i sock core lt at few = (tt, refl)
  assign-Spread_from (suc left) i sock core lt at few =
      let here = within sock core (omega arith) in
      elim (ℕ_discrete (sock + 1) sockets) [
        | yes last ↦
            let c = carry core in
            let (rest, many) =
              assign-Spread_from left (i + 1) 0 (core + 1) (omega arith) (omega arith)
                (omega arith) in
            rw (==_true (sock + 1) sockets last) (((refl, lt, here, at), rest), omega arith)
        | no more ↦
            let (rest, many) =
              assign-Spread_from left (i + 1) (sock + 1) core (omega arith) (omega arith)
                (omega arith) in
            rw (==_false (sock + 1) sockets more) (((refl, lt, here, at), rest), omega arith)
      ]

-- With at least one socket and no more enclaves than cores: each enclave gets a socket and a core
-- within the arrays, and its number is that of its core when the cores are counted round the sockets,
-- so that no two enclaves share a core.
pub assign-Spread :
    (sockets cores n : ℕ)
    → 0 < sockets
    → n ≤ sockets * cores
    → Spread sockets cores 0 (assign sockets 0 0 0 n) × (length (assign sockets 0 0 0 n) ≡ n)
assign-Spread sockets cores n some_socket few =
    let z : sockets * 0 + 0 ≡ 0 = ground arith in
    assign-Spread_from sockets cores n 0 0 0 some_socket z (omega arith)
