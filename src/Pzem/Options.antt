-- ===== src/Pzem/Options.antt =====
-- The command line of `main` (examples/readregs/pzem/pzem.c).
use renogy_x.Base.{ℕ, zero, suc}
use renogy_x.Base.{if◌then◌else◌}
use renogy_x.Base.{Bool, true, false, Option, none, some, List, [], ◌∷◌}
use renogy_x.Base.{ℤ, pos, negsuc, bytes_eq, codes}

-- The variables that the options set.
pub record Options : Type 0 where
  pub pzem_id : ℤ
  pub debug : Bool
  pub loop : ℤ
  pub loop_delay : ℤ
  pub show_slave_params : Bool
  pub reset_energy : Bool
  pub set_id : ℤ
  pub set_range : ℤ

abbrev pub initial : Options
initial = record {
  pzem_id = pos 1;
  debug = false;
  loop = pos 0;
  loop_delay = pos 0;
  show_slave_params = false;
  reset_energy = false;
  set_id = pos 0;
  set_range = negsuc 0;
}

-- What an argument does: it ends the program with status 1, or it changes the options and uses a
-- number of the arguments behind it.
pub data Taken : Type 0 where
  refused : Taken
  taken : Options → ℕ → Taken

-- An option that needs one argument, or two.
abbrev pub with_one : List (List ℕ) → (List ℕ → Options) → Taken
with_one [] f = refused
with_one (a ∷ rest) f = taken (f a) 1

abbrev pub with_two : List (List ℕ) → (List ℕ → List ℕ → Options) → Taken
with_two [] f = refused
with_two (a ∷ []) f = refused
with_two (a ∷ b ∷ rest) f = taken (f a b) 2

module _ (atoi : List ℕ → ℤ) where
  unfoldable pub take_option : List ℕ → List (List ℕ) → Options → Taken
  take_option arg rest o =
      if bytes_eq arg (codes "--id")
      then with_one rest (λ a. record o { pzem_id = atoi a })
      else if bytes_eq arg (codes "--debug")
      then taken (record o { debug = true }) 0
      else if bytes_eq arg (codes "--loop")
      then with_two rest (λ a b. record o { loop = atoi a; loop_delay = atoi b })
      else if bytes_eq arg (codes "--slave")
      then taken (record o { show_slave_params = true }) 0
      else if bytes_eq arg (codes "--reset-energy")
      then taken (record o { reset_energy = true }) 0
      else if bytes_eq arg (codes "--set-id")
      then with_one rest (λ a. record o { set_id = atoi a })
      else if bytes_eq arg (codes "--set-range")
      then with_one rest (λ a. record o { set_range = atoi a })
      else refused

  -- The loop over the arguments; the first argument counts those that an option has used.
  unfoldable pub parse_args : ℕ → List (List ℕ) → Options → Option Options
  unfolding take_option
  parse_args used [] o = some o
  parse_args (suc used) (arg ∷ rest) o = parse_args used rest o
  parse_args zero (arg ∷ rest) o = elim (take_option arg rest o) [
    | refused ↦ none
    | taken o' used ↦ parse_args used rest o'
  ]
