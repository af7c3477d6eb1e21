-- ===== src/Influx/Main/Start.antt =====
-- `sig_int`, `sig_pipe`, `main_fgbg`, `main_settings` and `main` of renogy_influx/renogy_influx.c.
use renogy_x.Influx.Monitor.Turns.{decimal_ℤ, Outcome, after}
use renogy_x.Influx.Monitor.Loops.{main_modbus}
use renogy_x.Base.{ℕ}
use renogy_x.Base.{if◌then◌else◌}
use renogy_x.Base.{false, none, some, List, [], ◌∷◌, ◌++◌}
use renogy_x.Base.{pos, ltb_ℤ, ◌==ℤ◌}
use renogy_x.Base.{codes, decimal, printed, c_str}
use renogy_x.Influx.System.{System}
use renogy_x.Influx.Env.{ErrorCode, error_none, error_fatal, Monitor}
use renogy_x.Influx.Main.Args.{Settings, process_args, printf_help}
use renogy_x.Influx.Log.{log_init, log_deinit, log_flag_file, log_flag_stdout}

abbrev pub sigint : ℕ
sigint = 2

abbrev pub sigterm : ℕ
sigterm = 15

abbrev pub sigpipe : ℕ
sigpipe = 13

module _ (S : System) where
  -- The handler of SIGINT and SIGTERM writes four bytes, the NUL among them, to the pipe.
  unfoldable pub sig_int : Monitor S → Monitor S
  sig_int s = record s { world = (S.write s.term_pipe_out (codes "sig" ++ (0 ∷ [])) s.world).1 }

  unfoldable pub sig_pipe : Monitor S → Monitor S
  sig_pipe s = s

  -- `printf` of several lines.
  unfoldable pub print_all : List (List ℕ) → S.World → S.World
  print_all [] w = w
  print_all (line ∷ lines) w = print_all lines (S.printf line w)

  -- `log_init`, the monitor, `log_deinit`.
  unfoldable pub run_logged : ℕ → List ℕ → ℕ → ℕ → Monitor S → Outcome S
  run_logged flags filename inner fuel s =
      let (error, log, w) = log_init S flags 4 filename s.log s.world in
      after S (main_modbus S inner fuel (record s { log = log; world = w }))
        (λ rv t. some (rv, record t { world = (log_deinit S t.log t.world).1 }))

  -- In the child: the three standard descriptors are opened anew on /dev/null.
  unfoldable pub detach : S.World → S.World
  detach w =
      let w1 = S.close (pos 2) (S.close (pos 1) (S.close (pos 0) w)) in
      let w2 = (S.open_file (codes "/dev/null") 0 w1).1 in
      let w3 = (S.open_file (codes "/dev/null") 1 w2).1 in (S.open_file (codes "/dev/null") 1 w3).1

  unfoldable pub log_name : Settings → ℕ → List ℕ
  log_name settings pid = elim (c_str settings.log_filename) [
    | [] ↦ printed 256 (codes "/tmp/renogy_influx_" ++ (decimal pid ++ codes ".log"))
    | c ∷ cs ↦ c ∷ cs
  ]

  -- The daemon: `fork` gives 0 in the child, and the child's number in the parent.
  unfoldable pub run_daemon : Settings → ℕ → ℕ → Monitor S → Outcome S
  run_daemon settings inner fuel s =
      let (pid, w) = S.fork s.world in
      if pid ==ℤ pos 0
      then (let (child, w') = S.getpid (detach w) in
          run_logged log_flag_file (log_name settings child) inner fuel (record s { world = w' }))
      else if ltb_ℤ (pos 0) pid
      then some (
        error_none,
        record s {
          world = S.printf (codes "start daemon with pid " ++ (decimal_ℤ pid ++ codes "\n")) w;
        },
      )
      else some (error_fatal, record s { world = S.printf (codes "fork failed\n") w })

  unfoldable pub main_fgbg : Settings → ℕ → ℕ → Monitor S → Outcome S
  main_fgbg settings inner fuel s =
      if settings.daemonize
      then run_daemon settings inner fuel s
      else run_logged log_flag_stdout [] inner fuel s

  -- 264 is `sizeof(struct settings_info)`; `calloc` clears it.
  unfoldable pub main_settings : List (List ℕ) → ℕ → ℕ → Monitor S → Outcome S
  main_settings argv inner fuel s =
      let (given, w) = S.malloc 264 s.world in
      let s1 = record s { world = w } in
      let freed =
        λ (rv : ErrorCode) (t : Monitor S). some (rv, record t { world = S.free t.world }) in
      if given
      then elim (process_args argv (record { log_filename = []; daemonize = false })) [
        | some settings ↦ after S (main_fgbg settings inner fuel s1) freed
        | none ↦ freed error_none (record s1 { world = print_all (printf_help argv) w })
      ]
      else some (error_fatal, s1)

  -- With the signals set: the pipe is made, used, and closed at both ends.
  unfoldable pub with_pipe : List (List ℕ) → ℕ → ℕ → Monitor S → Outcome S
  with_pipe argv inner fuel s =
      let (ends, w) = S.pipe s.world in
      let s1 = record s { world = w } in
      elim ends [
        | none ↦ some (error_fatal, s1)
        | some (out, into) ↦
            after S
              (main_settings argv inner fuel (record s1 { term_pipe = out; term_pipe_out = into }))
              (λ rv t. some (rv, record t { world = S.close into (S.close out t.world) }))
      ]

  -- `main`, whose exit status is the code.
  unfoldable pub main : List (List ℕ) → ℕ → ℕ → Monitor S → Outcome S
  main argv inner fuel s =
      let (int_set, w1) = S.signal sigint s.world in
      let (term_set, w2) = S.signal sigterm w1 in
      let (pipe_set, w3) = S.signal sigpipe w2 in
      if int_set
      then if term_set
        then if pipe_set
          then with_pipe argv inner fuel (record s { world = w3 })
          else some (error_fatal, record s { world = w3 })
        else some (error_fatal, record s { world = w2 })
      else some (error_fatal, record s { world = w1 })
