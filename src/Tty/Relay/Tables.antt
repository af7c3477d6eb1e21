-- ===== src/Tty/Relay/Tables.antt =====
-- How tty_reader/tty_reader_influx.zig reads the registers of a message, table by table.
use mathlib.Core.List.{append_assoc}
use renogy_x.Base.{ℕ, zero, suc, ◌+◌, ◌*◌, ◌^◌, ◌<◌, ◌≤◌}
use renogy_x.Base.{◌≡◌, refl, ap, sym, ◌∙◌, arith}
use renogy_x.Base.{
  true, Option, none, some, List, [], ◌∷◌, ◌++◌, length, drop, length-append, length-drop,
}
use renogy_x.Tty.After.{bind_cong}
use renogy_x.Tty.Parse.{Parse, IsParse}
use renogy_x.Tty.Publisher.{out_regs}
use renogy_x.Tty.Relay.Settings.{Net}
use renogy_x.Tty.Relay.Points.{Relay, Later, process_msg_table, post, word, long, word_after}

-- What is posted: the table, the number, and its divisor.
abbrev pub Point : Type 0
Point = List ℕ × (ℕ × ℕ)

-- A register.
unfoldable pub reg : ℕ → List ℕ → ℕ
reg i [] = 0
reg zero (r ∷ regs) = r
reg (suc i) (r ∷ regs) = reg i regs

-- Two registers, the lower half first.
abbrev pub wide : ℕ → List ℕ → ℕ
wide i regs = reg (i + 1) regs * 65536 + reg i regs

-- Registers have 16 bits.
abbrev pub AreWords : List ℕ → Type 0
AreWords [] = Unit
AreWords (r ∷ regs) = (r < 2 ^ 16) × AreWords regs

module _ (N : Net) where
  -- The tables one by one, until one of them fails.
  unfoldable pub post_all : List Point → Relay N → Option (Relay N)
  post_all [] info = some info
  post_all ((table_name, (value, divisor)) ∷ points) info =
      elim (process_msg_table N table_name value divisor info) [
        | none ↦ none
        | some next ↦ post_all points next
      ]

  module _ (P : Parse) (laws : IsParse P) where
    length-out_regs : (regs : List ℕ) → length (out_regs P regs) ≡ 2 * length regs
    unfolding out_regs
    length-out_regs [] = refl
    length-out_regs (r ∷ regs) =
        omega (
          arith,
          length-append (P.out_u16_le r) (out_regs P regs),
          laws.size r,
          length-out_regs regs,
        )

    -- From a register on.
    abbrev from : ℕ → List ℕ → List ℕ
    from i regs = out_regs P (drop i regs)

    from-reg :
        (i : ℕ) (regs : List ℕ)
        → i < length regs
        → from i regs ≡ P.out_u16_le (reg i regs) ++ from (i + 1) regs
    unfolding out_regs reg
    from-reg i [] h = absurd (omega arith)
    from-reg zero (r ∷ regs) h = refl
    from-reg (suc i) (r ∷ regs) h =
        let moved : suc i + 1 ≡ suc (i + 1) = omega arith in
        from-reg i regs (omega arith)
        ∙ ap (λ k. P.out_u16_le (reg i regs) ++ from k (r ∷ regs)) (sym moved)

    reg-AreWords : (i : ℕ) (regs : List ℕ) → AreWords regs → reg i regs < 2 ^ 16
    unfolding reg
    reg-AreWords i [] h = omega arith
    reg-AreWords zero (r ∷ regs) h = h.0
    reg-AreWords (suc i) (r ∷ regs) h = reg-AreWords i regs h.1

    read_word :
        (i : ℕ) (regs : List ℕ)
        → i < length regs
        → AreWords regs
        → P.in_u16_le (from i regs) ≡ (reg i regs, from (i + 1) regs)
    read_word i regs h words =
        ap P.in_u16_le (from-reg i regs h) ∙ laws.back (reg i regs) _ (reg-AreWords i regs words)

    read_long :
        (i : ℕ) (regs : List ℕ)
        → i + 1 < length regs
        → AreWords regs
        → P.in_u32_le (from i regs) ≡ (wide i regs, from (i + 1 + 1) regs)
    read_long i regs h words =
        ap P.in_u32_le (
          from-reg i regs (omega arith)
          ∙ ap (λ l. P.out_u16_le (reg i regs) ++ l) (from-reg (i + 1) regs h))
        ∙ laws.both (reg i regs) (reg (i + 1) regs) _ (reg-AreWords i regs words)
            (reg-AreWords (i + 1) regs words)

    enough_left :
        (n i : ℕ) (regs : List ℕ) → i + n ≤ length regs → P.check_rem (2 * n) (from i regs) ≡ true
    enough_left n i regs h =
        laws.enough (2 * n) (from i regs)
          (omega (arith, length-out_regs (drop i regs), length-drop i regs, h))

    post-then :
        (table_name : List ℕ) (divisor : ℕ) (read : ℕ × List ℕ) (value : ℕ) (s : List ℕ)
        (info : Relay N) (later : Later N) (points : List Point)
        → read ≡ (value, s)
        → ((next : Relay N) → later s next ≡ post_all points next)
        → post N table_name divisor read info later
          ≡ post_all ((table_name, (value, divisor)) ∷ points) info
    unfolding post post_all
    post-then table_name divisor read value s info later points e rest =
        ap (λ r. post N table_name divisor r info later) e
        ∙ bind_cong (process_msg_table N table_name value divisor info) _ _ rest

    pub word-then :
        (i : ℕ) (regs : List ℕ) (table_name : List ℕ) (divisor : ℕ) (info : Relay N)
        (later : Later N) (points : List Point)
        → i < length regs
        → AreWords regs
        → ((next : Relay N) → later (from (i + 1) regs) next ≡ post_all points next)
        → word N P table_name divisor (from i regs) info later
          ≡ post_all ((table_name, (reg i regs, divisor)) ∷ points) info
    unfolding word
    word-then i regs table_name divisor info later points h words rest =
        ground (arith, enough_left 1 i regs (omega arith))
        ∙ post-then table_name divisor _ _ _ info later points (read_word i regs h words) rest

    pub long-then :
        (i : ℕ) (regs : List ℕ) (table_name : List ℕ) (divisor : ℕ) (info : Relay N)
        (later : Later N) (points : List Point)
        → i + 1 < length regs
        → AreWords regs
        → ((next : Relay N) → later (from (i + 1 + 1) regs) next ≡ post_all points next)
        → long N P table_name divisor (from i regs) info later
          ≡ post_all ((table_name, (wide i regs, divisor)) ∷ points) info
    unfolding long
    long-then i regs table_name divisor info later points h words rest =
        ground (arith, enough_left 2 i regs (omega arith))
        ∙ post-then table_name divisor _ _ _ info later points (read_long i regs h words) rest

    from-skip :
        (n i : ℕ) (regs : List ℕ)
        → i + n ≤ length regs
        → (l : List ℕ) × (length l ≡ 2 * n) × (from i regs ≡ l ++ from (i + n) regs)
    from-skip zero i regs h =
        let same : i ≡ i + 0 = omega arith in ([], refl, ap (λ k. from k regs) same)
    from-skip (suc n) i regs h =
        let (l, size, e) = from-skip n (i + 1) regs (omega arith) in
        let moved : i + 1 + n ≡ i + suc n = omega arith in
        (
          P.out_u16_le (reg i regs) ++ l,
          omega (arith, length-append (P.out_u16_le (reg i regs)) l, laws.size (reg i regs), size),
          from-reg i regs (omega arith)
              ∙ ap (λ r. P.out_u16_le (reg i regs) ++ r) (e ∙ ap (λ k. l ++ from k regs) moved)
              ∙ sym (append_assoc (P.out_u16_le (reg i regs)) l (from (i + suc n) regs)),
        )

    skip-from :
        (n i : ℕ) (regs : List ℕ)
        → i + n ≤ length regs
        → P.in_u8_skip (2 * n) (from i regs) ≡ from (i + n) regs
    skip-from n i regs h =
        let (l, size, e) = from-skip n i regs h in
        ap (P.in_u8_skip (2 * n)) e ∙ laws.skip (2 * n) l (from (i + n) regs) size

    pub word_after-then :
        (n i : ℕ) (regs : List ℕ) (table_name : List ℕ) (divisor : ℕ) (info : Relay N)
        (later : Later N) (points : List Point)
        → i + n < length regs
        → AreWords regs
        → ((next : Relay N) → later (from (i + n + 1) regs) next ≡ post_all points next)
        → word_after N P (2 * n) table_name divisor (from i regs) info later
          ≡ post_all ((table_name, (reg (i + n) regs, divisor)) ∷ points) info
    unfolding word_after
    word_after-then n i regs table_name divisor info later points h words rest =
        let size : 2 * n + 2 ≡ 2 * (n + 1) = omega arith in
        let left : P.check_rem (2 * n + 2) (from i regs) ≡ true =
          ap (λ k. P.check_rem k (from i regs)) size ∙ enough_left (n + 1) i regs (omega arith) in
        ground (arith, left)
        ∙ post-then table_name divisor _ _ _ info later points
            (ap P.in_u16_le (skip-from n i regs (omega arith)) ∙ read_word (i + n) regs h words)
            rest

    pub nil-post_all : (info : Relay N) → some info ≡ post_all [] info
    unfolding post_all
    nil-post_all info = refl
