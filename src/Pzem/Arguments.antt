-- ===== src/Pzem/Arguments.antt =====
-- Command lines that name every option, read back (examples/readregs/pzem/pzem.c).
use renogy_x.Base.{ℕ, zero}
use renogy_x.Base.{◌≡◌, ◌∙◌, refl}
use renogy_x.Base.{Bool, true, false, some, List, [], ◌∷◌, ◌++◌}
use renogy_x.Base.{ℤ, codes}
use renogy_x.Pzem.Options.{Options, initial, take_option, parse_args}

abbrev flag : Bool → List ℕ → List (List ℕ)
flag true word = word ∷ []
flag false word = []

-- The options with a number, where `show` writes the numbers.
abbrev numbers_of : (ℤ → List ℕ) → Options → List (List ℕ)
numbers_of show o =
    codes "--id"
    ∷ show o.pzem_id
    ∷ codes "--loop"
    ∷ show o.loop
    ∷ show o.loop_delay
    ∷ codes "--set-id"
    ∷ show o.set_id
    ∷ codes "--set-range"
    ∷ show o.set_range
    ∷ []

-- A command line for all the options.
abbrev pub arguments_of : (ℤ → List ℕ) → Options → List (List ℕ)
arguments_of show o =
    flag o.debug (codes "--debug")
    ++ (flag o.show_slave_params (codes "--slave")
        ++ (flag o.reset_energy (codes "--reset-energy") ++ numbers_of show o))

module _ (atoi : List ℕ → ℤ) where
  -- The options that the flags leave behind.
  abbrev flagged : Bool → Bool → Bool → Options
  flagged debug slave reset = record initial {
    debug = debug;
    show_slave_params = slave;
    reset_energy = reset;
  }

  debug_read :
      (d : Bool) (rest : List (List ℕ))
      → parse_args atoi zero (flag d (codes "--debug") ++ rest) initial
        ≡ parse_args atoi zero rest (flagged d false false)
  unfolding parse_args take_option
  debug_read true rest = refl
  debug_read false rest = refl

  slave_read :
      (d s : Bool) (rest : List (List ℕ))
      → parse_args atoi zero (flag s (codes "--slave") ++ rest) (flagged d false false)
        ≡ parse_args atoi zero rest (flagged d s false)
  unfolding parse_args take_option
  slave_read d true rest = refl
  slave_read d false rest = refl

  reset_read :
      (d s r : Bool) (rest : List (List ℕ))
      → parse_args atoi zero (flag r (codes "--reset-energy") ++ rest) (flagged d s false)
        ≡ parse_args atoi zero rest (flagged d s r)
  unfolding parse_args take_option
  reset_read d s true rest = refl
  reset_read d s false rest = refl

  -- The text that is written for a number is read back by `atoi` as that number.
  abbrev pub IsReadBack : (ℤ → List ℕ) → ℤ → Type 0
  IsReadBack show z = atoi (show z) ≡ z

  -- The five numbers of the options are.
  pub record AreReadBack (show : ℤ → List ℕ) (o : Options) : Type 0 where
    pub of_id : IsReadBack show o.pzem_id
    pub of_loop : IsReadBack show o.loop
    pub of_delay : IsReadBack show o.loop_delay
    pub of_set_id : IsReadBack show o.set_id
    pub of_range : IsReadBack show o.set_range

  module _ (show : ℤ → List ℕ) (o : Options) (h : AreReadBack show o) where
    numbers_read :
        parse_args atoi zero
          (numbers_of show o)
          (flagged o.debug o.show_slave_params o.reset_energy)
        ≡ some o
    unfolding parse_args take_option
    numbers_read = rw (h.of_id, h.of_loop, h.of_delay, h.of_set_id, h.of_range) refl

    -- A command line that `arguments_of` writes sets exactly its options, where `atoi` reads back the five
    -- numbers among them.
    pub parse_args-arguments_of : parse_args atoi zero (arguments_of show o) initial ≡ some o
    parse_args-arguments_of =
        debug_read o.debug _
        ∙ slave_read o.debug o.show_slave_params _
        ∙ reset_read o.debug o.show_slave_params o.reset_energy _
        ∙ numbers_read
