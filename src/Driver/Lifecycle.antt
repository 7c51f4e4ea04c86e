-- ===== src/Driver/Lifecycle.antt =====
-- What main of src/hosk/test.cpp calls of each enclave, from its population to its end.
use hosk.Base.{ℕ, ◌≡◌, refl, true, false, List, [], ◌∷◌, ◌++◌}
use hosk.Enclave.{
  Ptr, Core, create_helper, join_helper, create_application, join_application, create_populate,
  new_enclave, start_helper, stop_helper, start_application, stop_application, delete_enclave,
  populate_begin, populate_end, reset_index_layer,
}
use hosk.Enclave.Threads.{
  Method, start, start_app, stop, stop_app, reset, delete, populate, end_populate, invoke,
  invoke_all,
}

-- "Initial skip list population"
abbrev pub population : Ptr → ℕ → (Ptr → ℕ) → List Method
population params num last =
    start true ∷ populate params num ∷ end_populate last ∷ stop ∷ reset ∷ start true ∷ []

-- "Reset helper thread with appropriate sleep time", after main's wait for the level of the index.
abbrev pub departure : List Method
departure = stop ∷ start false ∷ []

-- The application, until "Wait for thread completion".
abbrev pub application : Ptr → List Method
application params_of = start_app params_of ∷ stop_app ∷ []

-- "Stop background threads"
abbrev pub completion : List Method
completion = stop ∷ delete ∷ []

abbrev pub main_calls : Ptr → ℕ → (Ptr → ℕ) → Ptr → List Method
main_calls params num last params_of =
    population params num last ++ departure ++ application params_of ++ completion

-- Whatever the parameters: main creates and joins the threads of an enclave in turn, three helpers one
-- after the other, the populating thread and the application; each is joined once, and the destructor
-- finds nothing left to join. The last helper updates the index at its own frequency, no longer at every
-- turn; the enclave keeps the parameters of its application.
pub main_calls-Ends :
    (c : Core) (sock : ℕ) (s : Ptr) (freq e_num n seed : ℕ) (params : Ptr) (num : ℕ)
    (last : Ptr → ℕ) (params_of : Ptr)
    → let e =
        invoke_all
          (new_enclave c sock s freq e_num n seed)
          (main_calls params num last params_of) in
      (e.calls
        ≡ create_helper ∷ create_populate ∷ join_application ∷ join_helper ∷ create_helper
          ∷ join_helper ∷ create_helper ∷ create_application ∷ join_application ∷ join_helper ∷ [])
      × (e.running ≡ false)
      × (e.finished ≡ true)
      × (e.populate_init ≡ false)
      × (e.num_populate ≡ num)
      × (e.aparams ≡ params_of)
unfolding invoke_all invoke new_enclave start_helper stop_helper start_application stop_application
    delete_enclave populate_begin populate_end reset_index_layer
main_calls-Ends c sock s freq e_num n seed params num last params_of =
    (refl, refl, refl, refl, refl, refl)
