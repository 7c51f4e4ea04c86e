-- ===== src/Enclave/Threads.antt =====
-- The protocol of the helper thread (start_helper, stop_helper and the destructor of
-- src/hosk/enclave.cpp) against the pthread library: a helper is created only when none lives, and
-- joined only when one does.
use hosk.Base.{
  ℕ, ◌≡◌, refl, Bool, true, false, Option, none, some, if◌then◌else◌, List, [], ◌∷◌, ◌++◌, arith,
}
use hosk.Enclave.{
  Ptr, Core, Call, create_helper, join_helper, create_application, join_application,
  create_populate, Enclave, new_enclave, start_helper, stop_helper, start_application,
  stop_application, delete_enclave, populate_begin, populate_end, reset_index_layer,
}

-- Whether a helper lives after the calls: `none` if one was created beside another, or joined
-- where none lived.
abbrev pub helper_after : Option Bool → Call → Option Bool
helper_after none _ = none
helper_after (some true) create_helper = none
helper_after (some false) create_helper = some true
helper_after (some true) join_helper = some false
helper_after (some false) join_helper = none
helper_after (some b) create_application = some b
helper_after (some b) join_application = some b
helper_after (some b) create_populate = some b

unfoldable pub helper_lives : Option Bool → List Call → Option Bool
helper_lives o [] = o
helper_lives o (c ∷ cs) = helper_lives (helper_after o c) cs

helper_lives-snoc :
    (o : Option Bool) (cs : List Call) (c : Call)
    → helper_lives o (cs ++ c ∷ []) ≡ helper_after (helper_lives o cs) c
unfolding helper_lives
helper_lives-snoc o [] c = refl
helper_lives-snoc o (d ∷ cs) c = helper_lives-snoc (helper_after o d) cs c

-- The methods that a client calls.
pub data Method : Type 0 where
  start : Bool → Method
  start_app : Ptr → Method
  stop stop_app reset delete : Method
  populate : Ptr → ℕ → Method
  end_populate : (Ptr → ℕ) → Method

unfoldable pub invoke : Enclave → Method → Enclave
invoke e (start all) = start_helper all e
invoke e stop = stop_helper e
invoke e (start_app p) = start_application p e
invoke e stop_app = stop_application e
invoke e reset = reset_index_layer e
invoke e delete = delete_enclave e
invoke e (populate p n) = populate_begin p n e
invoke e (end_populate last) = (populate_end last e).1

unfoldable pub invoke_all : Enclave → List Method → Enclave
invoke_all e [] = e
invoke_all e (m ∷ ms) = invoke_all (invoke e m) ms

-- The log is that of a correct client of the library, and `running` says whether a helper lives.
abbrev pub IsTracked : Enclave → Type 0
IsTracked e = helper_lives (some false) e.calls ≡ some e.running

invoke-IsTracked : (e : Enclave) (m : Method) → IsTracked e → IsTracked (invoke e m)
unfolding invoke start_helper stop_helper start_application stop_application delete_enclave
    populate_begin populate_end reset_index_layer
invoke-IsTracked e (start all) h =
    ground (arith, helper_lives-snoc (some false) e.calls create_helper)
invoke-IsTracked e stop h = ground (arith, helper_lives-snoc (some false) e.calls join_helper)
invoke-IsTracked e (start_app p) h =
    ground (arith, helper_lives-snoc (some false) e.calls create_application)
invoke-IsTracked e stop_app h =
    ground (arith, helper_lives-snoc (some false) e.calls join_application)
invoke-IsTracked e reset h = h
invoke-IsTracked e delete h = ground (
  arith,
  helper_lives-snoc (some false) e.calls join_helper,
  helper_lives-snoc (some false) e.calls join_application,
  helper_lives-snoc (some false) (e.calls ++ join_helper ∷ []) join_application,
)
invoke-IsTracked e (populate p n) h =
    ground (arith, helper_lives-snoc (some false) e.calls create_populate)
invoke-IsTracked e (end_populate last) h =
    ground (arith, helper_lives-snoc (some false) e.calls join_application)

invoke_all-IsTracked_of :
    (ms : List Method) (e : Enclave) → IsTracked e → IsTracked (invoke_all e ms)
unfolding invoke_all
invoke_all-IsTracked_of [] e h = h
invoke_all-IsTracked_of (m ∷ ms) e h =
    invoke_all-IsTracked_of ms (invoke e m) (invoke-IsTracked e m h)

-- From a new enclave, after any sequence of its methods, the destructor included, no helper thread
-- was ever created while another lived, none was joined that was not there, and `running` says
-- whether one lives now.
pub invoke_all-IsTracked :
    (c : Core) (sock : ℕ) (s : Ptr) (freq e_num n seed : ℕ) (ms : List Method)
    → IsTracked (invoke_all (new_enclave c sock s freq e_num n seed) ms)
unfolding helper_lives new_enclave
invoke_all-IsTracked c sock s freq e_num n seed ms =
    invoke_all-IsTracked_of ms (new_enclave c sock s freq e_num n seed) refl

-- A helper that is stopped does not run, whatever the state of the enclave; the destructor leaves
-- `finished` set, and it leaves a running helper only where `finished` was set before it.
pub delete_enclave-stops :
    (e : Enclave)
    → ((stop_helper e).running ≡ false)
      × ((delete_enclave e).finished ≡ true)
      × ((delete_enclave e).running ≡ (if e.finished then e.running else false))
unfolding stop_helper stop_application delete_enclave
delete_enclave-stops e = ground arith
