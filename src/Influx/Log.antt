-- ===== src/Influx/Log.antt =====
-- The log: renogy_influx/renogy_influx_log.c.
pub mod Laws
use renogy_x.Base.{ℕ, zero, suc, ◌+◌, ◌-◌, ◌*◌, ◌/◌, ◌%◌, ◌^◌, ◌≤◌, ◌<◌, ltb, leb, ◌==◌}
use renogy_x.Base.{
  ◌≡◌, refl, sym, ap, ◌∙◌, ◌≢◌, ◌↔◌, ◌⊎◌, inl, inr, arith, if◌then◌else◌, Bool-cases,
}
use renogy_x.Base.{Bool, true, false, not, ◌&&◌, ◌||◌, Option, none, some, List, [], ◌∷◌, ◌++◌}
use renogy_x.Base.{
  length, take, drop, get_or, set, replicate, bytes_eq, length-take, length-append, take_all,
}
use renogy_x.Base.{ℤ, pos, negsuc, pos_part, neg_part, ◌+ℤ◌, ◌-ℤ◌, ◌≤ℤ◌, ltb_ℤ, ◌==ℤ◌, wrap32}
use renogy_x.Base.{
  M, ◌>>=◌, ◌>>◌, pure, read_state, modify, fault, when, Keeps, Ensures, Ensures-bind,
}
use renogy_x.Base.{Keeps-bind, Keeps-then, Keeps-when, Keeps-pure}
use renogy_x.Base.{codes, decimal, padded, printed, c_str, occurs, to_u32, length-padded}
use renogy_x.Base.{FdSet, fd_isset, Timeval, Selected, timeval_of_ms}
use renogy_x.Influx.System.{System}

-- `g_log_level`, `g_log_fd`, `g_log_flags`, `g_log_filename` and `g_log_filename_last`.
pub record Log : Type 0 where
  pub level : ℕ
  pub fd : ℤ
  pub flags : ℕ
  pub filename : List ℕ
  pub filename_last : List ℕ

abbrev pub log_error : ℕ
log_error = 0

abbrev pub log_info : ℕ
log_info = 2

abbrev pub log_flag_file : ℕ
log_flag_file = 1

abbrev pub log_flag_stdout : ℕ
log_flag_stdout = 2

-- The values that the globals start with.
abbrev pub initial_log : Log
initial_log = record {
  level = 4;
  fd = negsuc 0;
  flags = log_flag_stdout;
  filename = [];
  filename_last = codes "/tmp/renogy_influx_last.log";
}

-- `flags & LOG_FLAG_FILE` and `flags & LOG_FLAG_STDOUT`
abbrev pub has_file : ℕ → Bool
has_file flags = flags % 2 == 1

abbrev pub has_stdout : ℕ → Bool
has_stdout flags = flags / 2 % 2 == 1

-- `g_log_pre`
abbrev pub log_pre : ℕ → List ℕ
log_pre zero = codes "ERROR"
log_pre (suc zero) = codes "WARN"
log_pre (suc (suc zero)) = codes "INFO"
log_pre (suc (suc (suc n))) = codes "DEBUG"

-- The tick: each assignment to the `int` keeps its low 32 bits.
unfoldable pub tick_of : ℕ → ℕ → ℤ
unfolding wrap32 ◌+ℤ◌
tick_of tv_sec tv_nsec = wrap32 (wrap32 (pos (tv_nsec / 1000000)) +ℤ pos (tv_sec * 1000))

-- "[%10.10u][%s]%s\n" in a buffer of 2048 bytes; the message is cut to its buffer of 1024 first.
unfoldable pub log_text : ℤ → ℕ → List ℕ → List ℕ
unfolding to_u32 padded
log_text mstime log_level message =
    codes "["
    ++ (padded 10 (to_u32 mstime)
        ++ (codes "]["
            ++ (log_pre (log_level % 4) ++ (codes "]" ++ (printed 1024 message ++ codes "\n")))))

module _ (S : System) where
  -- The result of `get_mstime`: `none` where it returns 1.
  unfoldable pub get_mstime : S.World → Option ℤ × S.World
  get_mstime w =
      let (read, w') = S.clock_gettime w in
      (elim read [ none ↦ none | some (sec, nsec) ↦ some (tick_of sec nsec) ], w')

  unfoldable pub log_init : ℕ → ℕ → List ℕ → Log → S.World → ℤ × Log × S.World
  log_init flags log_level filename g w0 =
      let g0 = record g { flags = flags; level = log_level } in
      let (fd, w1) = S.open_file filename 0o600 w0 in
      let g1 = record g0 { fd = fd } in
      let (error, w2) = S.chmod filename 0o666 w1 in
      if has_file flags
      then if fd ==ℤ negsuc 0
        then (pos 1, g1, w1)
        else if error ==ℤ pos 0
        then (pos 0, record g1 { filename = take 255 filename }, w2)
        else (pos 1, record g1 { fd = negsuc 0 }, S.close fd w2)
      else (pos 0, g0, w0)

  -- The descriptor keeps its number after it is closed.
  unfoldable pub log_deinit : Log → S.World → ℤ × S.World
  log_deinit g w =
      if g.fd ==ℤ negsuc 0
      then (pos 0, w)
      else (pos 0, S.rename g.filename g.filename_last (S.unlink g.filename_last (S.close g.fd w)))

  -- Where the line goes, once it is formatted.
  unfoldable pub log_write : List ℕ → Log → S.World → ℤ × S.World
  log_write line g w =
      let (len, w1) = S.write g.fd line w in
      let shown = λ (v : S.World). if has_stdout g.flags then S.printf line v else v in
      if has_file g.flags
      then if g.fd ==ℤ negsuc 0
        then (pos 1, S.free w)
        else if len ==ℤ pos (length line)
        then (pos 0, S.free (shown w1))
        else (pos 1, S.free w1)
      else (pos 0, S.free (shown w))

  -- 3072 is `sizeof(struct log_line_t)`.
  unfoldable pub logln : ℕ → List ℕ → Log → S.World → ℤ × S.World
  logln log_level message g w0 =
      let (given, w1) = S.malloc 3072 w0 in
      let (read, w2) = get_mstime w1 in
      if ltb log_level g.level
      then if given
        then elim read [
          | none ↦ (pos 1, S.free w2)
          | some mstime ↦ log_write (log_text mstime log_level message) g w2
        ]
        else (pos 1, w1)
      else (pos 0, w0)
