-- ===== src/Influx/Main/Args.antt =====
-- `process_args` and `printf_help` of renogy_influx/renogy_influx.c.
use renogy_x.Base.{ℕ}
use renogy_x.Base.{◌≡◌, refl, arith, if◌then◌else◌}
use renogy_x.Base.{Bool, true, false, ◌&&◌, ◌||◌, Option, none, some, List, [], ◌∷◌, ◌++◌}
use renogy_x.Base.{bytes_eq}
use renogy_x.Base.{codes}

-- `settings->daemonize` and `settings->log_filename`; `struct settings_info`.
pub record Settings : Type 0 where
  pub log_filename : List ℕ
  pub daemonize : Bool

-- The arguments behind the program's name; `none` where `process_args` returns 1, which leaves the
-- settings unused.
unfoldable pub args_loop : List (List ℕ) → Settings → Option Settings
args_loop [] settings = some settings
args_loop (arg ∷ args) settings =
    let daemon = args_loop args (record settings { daemonize = true }) in
    let same = args_loop args settings in
    if bytes_eq (codes "-D") arg then daemon else if bytes_eq (codes "-F") arg then same else none

-- `argv`, with the program's name; `argc` is its length.
unfoldable pub process_args : List (List ℕ) → Settings → Option Settings
process_args [] settings = none
process_args (name ∷ []) settings = none
process_args (name ∷ arg ∷ args) settings = args_loop (arg ∷ args) settings

unfoldable pub printf_help : List (List ℕ) → List (List ℕ)
printf_help [] = []
printf_help (name ∷ args) =
    (name ++ codes ": command line options\n")
    ∷ codes "    -D      run daemon, example -D\n"
    ∷ codes "    -F      run forground, example -F\n"
    ∷ []

abbrev pub is_option : List ℕ → Bool
is_option arg = bytes_eq (codes "-D") arg || bytes_eq (codes "-F") arg

abbrev pub all_options : List (List ℕ) → Bool
all_options [] = true
all_options (arg ∷ args) = is_option arg && all_options args

abbrev pub has_any : List (List ℕ) → Bool
has_any [] = false
has_any (arg ∷ args) = true

abbrev pub has_daemon : List (List ℕ) → Bool
has_daemon [] = false
has_daemon (arg ∷ args) = bytes_eq (codes "-D") arg || has_daemon args

args_loop-eq :
    (args : List (List ℕ)) (settings : Settings)
    → args_loop args settings ≡ (
        if all_options args
        then some (record settings { daemonize = settings.daemonize || has_daemon args })
        else none)
unfolding args_loop
args_loop-eq [] settings = ground arith
args_loop-eq (arg ∷ args) settings =
    ground
      (arith, args_loop-eq args settings, args_loop-eq args (record settings { daemonize = true }))

-- The command line is accepted exactly where it has arguments and each of them is `-D` or `-F`; the
-- monitor becomes a daemon where `-D` is among them, or was asked for before, and nothing else changes.
pub process_args-eq :
    (name : List ℕ) (args : List (List ℕ)) (settings : Settings)
    → process_args (name ∷ args) settings ≡ (
        if has_any args && all_options args
        then some (record settings { daemonize = settings.daemonize || has_daemon args })
        else none)
unfolding process_args
process_args-eq name [] settings = refl
process_args-eq name (arg ∷ args) settings = args_loop-eq (arg ∷ args) settings
