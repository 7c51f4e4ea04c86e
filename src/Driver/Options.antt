-- ===== src/Driver/Options.antt =====
-- The options of the program: main of src/hosk/test.cpp. getopt_long, atoi and atol are the library's:
-- an option comes with the number that they give for its argument.
use hosk.Base.{
  ℕ, ◌≡◌, refl, ℤ, pos, negsuc, Bool, true, false, not, ◌&&◌, ◌||◌, Option, none, some, List, [],
  ◌∷◌, leb, if◌then◌else◌,
}

-- What getopt_long returns; `other` is a letter that the switch has no case for.
pub data Flag : Type 0 where
  none_set help alternate effective duration initial threads range seed : Flag
  update unbalanced zones frequency unknown other : Flag

pub record Options : Type 0 where
  pub duration : ℤ
  pub initial : ℤ
  pub nb_threads : ℤ
  pub range : ℤ
  pub seed : ℤ
  pub update : ℤ
  pub alternate : ℤ
  pub effective : ℤ
  pub unbalanced : ℤ
  pub num_numa_zones : ℤ
  pub update_frequency : ℤ

-- The defaults; `max_zones` is MAX_NUMA_ZONES, which libnuma gives.
abbrev pub defaults : ℕ → Options
defaults max_zones = record {
  duration = pos 10000;
  initial = pos 1024;
  nb_threads = pos 1;
  range = pos 2147483647;
  seed = pos 0;
  update = pos 20;
  alternate = pos 0;
  effective = pos 1;
  unbalanced = pos 0;
  num_numa_zones = pos max_zones;
  update_frequency = pos 20;
}

-- The cases of the switch; `none` where the program exits.
unfoldable pub set_option : Flag → ℤ → Options → Option Options
set_option Flag.none_set v o = some o
set_option Flag.help v o = none
set_option Flag.alternate v o = some (record o { alternate = pos 1 })
set_option Flag.effective v o = some (record o { effective = v })
set_option Flag.duration v o = some (record o { duration = v })
set_option Flag.initial v o = some (record o { initial = v })
set_option Flag.threads v o = some (record o { nb_threads = v })
set_option Flag.range v o = some (record o { range = v })
set_option Flag.seed v o = some (record o { seed = v })
set_option Flag.update v o = some (record o { update = v })
set_option Flag.unbalanced v o = some (record o { unbalanced = v })
set_option Flag.zones v o = some (record o { num_numa_zones = v })
set_option Flag.frequency v o = some (record o { update_frequency = v })
set_option Flag.unknown v o = none
set_option Flag.other v o = none

unfoldable pub parse : List (Flag × ℤ) → Options → Option Options
parse [] o = some o
parse ((f, v) ∷ rest) o = elim (set_option f v o) [ none ↦ none | some o' ↦ parse rest o' ]

-- `a <= b` on `int`.
abbrev pub int_le : ℤ → ℤ → Bool
int_le (pos a) (pos b) = leb a b
int_le (pos a) (negsuc b) = false
int_le (negsuc a) (pos b) = true
int_le (negsuc a) (negsuc b) = leb b a

-- The assertions on the options.
unfoldable pub are_valid : ℕ → Options → Bool
are_valid max_zones o =
    int_le (pos 0) o.duration
    && int_le (pos 0) o.initial
    && int_le (pos 2) o.nb_threads
    && int_le (pos 1) o.range
    && int_le o.initial o.range
    && int_le (pos 0) o.update
    && int_le o.update (pos 100)
    && int_le (pos 1) o.num_numa_zones
    && int_le o.num_numa_zones (pos max_zones)

-- Whether an option makes the program exit.
abbrev pub is_exit : Flag → Bool
is_exit Flag.help = true
is_exit Flag.unknown = true
is_exit Flag.other = true
is_exit _ = false

abbrev pub all_stay : List (Flag × ℤ) → Bool
all_stay [] = true
all_stay ((f, v) ∷ rest) = not (is_exit f) && all_stay rest

-- The last value that one of the options gives with a flag, or else `d`.
abbrev pub last_value : (Flag → Bool) → List (Flag × ℤ) → ℤ → ℤ
last_value is [] d = d
last_value is ((f, v) ∷ rest) d = last_value is rest (if is f then v else d)

abbrev pub is_given : (Flag → Bool) → List (Flag × ℤ) → Bool
is_given is [] = false
is_given is ((f, v) ∷ rest) = is f || is_given is rest

abbrev is_duration : Flag → Bool
is_duration Flag.duration = true
is_duration _ = false

abbrev is_initial : Flag → Bool
is_initial Flag.initial = true
is_initial _ = false

abbrev is_threads : Flag → Bool
is_threads Flag.threads = true
is_threads _ = false

abbrev is_range : Flag → Bool
is_range Flag.range = true
is_range _ = false

abbrev is_seed : Flag → Bool
is_seed Flag.seed = true
is_seed _ = false

abbrev is_update : Flag → Bool
is_update Flag.update = true
is_update _ = false

abbrev is_alternate : Flag → Bool
is_alternate Flag.alternate = true
is_alternate _ = false

abbrev is_effective : Flag → Bool
is_effective Flag.effective = true
is_effective _ = false

abbrev is_unbalanced : Flag → Bool
is_unbalanced Flag.unbalanced = true
is_unbalanced _ = false

abbrev is_zones : Flag → Bool
is_zones Flag.zones = true
is_zones _ = false

abbrev is_frequency : Flag → Bool
is_frequency Flag.frequency = true
is_frequency _ = false

-- What the options come to.
abbrev pub chosen : List (Flag × ℤ) → Options → Options
chosen os o = record {
  duration = last_value is_duration os o.duration;
  initial = last_value is_initial os o.initial;
  nb_threads = last_value is_threads os o.nb_threads;
  range = last_value is_range os o.range;
  seed = last_value is_seed os o.seed;
  update = last_value is_update os o.update;
  alternate = if is_given is_alternate os then pos 1 else o.alternate;
  effective = last_value is_effective os o.effective;
  unbalanced = last_value is_unbalanced os o.unbalanced;
  num_numa_zones = last_value is_zones os o.num_numa_zones;
  update_frequency = last_value is_frequency os o.update_frequency;
}

if-same : (b : Bool) (x : ℤ) → (if b then x else x) ≡ x
if-same true x = refl
if-same false x = refl

-- Where no option is one for help, unknown or without a case: the program goes on, and each setting is
-- the last value that was given for it, or what it was before where none was; `alternate` is 1 where
-- its option was given. Else it exits.
pub parse-chosen :
    (os : List (Flag × ℤ)) (o : Options)
    → parse os o ≡ (if all_stay os then some (chosen os o) else none)
unfolding parse set_option
parse-chosen [] o = refl
parse-chosen ((Flag.none_set, v) ∷ os) o = parse-chosen os o
parse-chosen ((Flag.help, v) ∷ os) o = refl
parse-chosen ((Flag.alternate, v) ∷ os) o =
    rw
      (parse-chosen os (record o { alternate = pos 1 }), if-same (is_given is_alternate os) (pos 1))
      refl
parse-chosen ((Flag.effective, v) ∷ os) o = parse-chosen os (record o { effective = v })
parse-chosen ((Flag.duration, v) ∷ os) o = parse-chosen os (record o { duration = v })
parse-chosen ((Flag.initial, v) ∷ os) o = parse-chosen os (record o { initial = v })
parse-chosen ((Flag.threads, v) ∷ os) o = parse-chosen os (record o { nb_threads = v })
parse-chosen ((Flag.range, v) ∷ os) o = parse-chosen os (record o { range = v })
parse-chosen ((Flag.seed, v) ∷ os) o = parse-chosen os (record o { seed = v })
parse-chosen ((Flag.update, v) ∷ os) o = parse-chosen os (record o { update = v })
parse-chosen ((Flag.unbalanced, v) ∷ os) o = parse-chosen os (record o { unbalanced = v })
parse-chosen ((Flag.zones, v) ∷ os) o = parse-chosen os (record o { num_numa_zones = v })
parse-chosen ((Flag.frequency, v) ∷ os) o = parse-chosen os (record o { update_frequency = v })
parse-chosen ((Flag.unknown, v) ∷ os) o = refl
parse-chosen ((Flag.other, v) ∷ os) o = refl
