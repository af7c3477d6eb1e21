-- ===== src/Tty/Stream.antt =====
-- What a subscriber makes of the stream of messages, however it is cut into pieces
-- (`process_csck_in` of tty_reader/tty_reader_heyu.zig and tty_reader/tty_reader_influx.zig).
use mathlib.Core.Option
use renogy_x.Base.{ℕ, zero, suc, ◌+◌, ◌-◌, ◌<◌, ◌≤◌}
use Prim.Native.Nat.{min}
use renogy_x.Base.{◌≡◌, refl, ap, ◌∙◌, arith}
use renogy_x.Base.{Option, none, some, List, [], ◌∷◌, ◌++◌}
use renogy_x.Base.{length, take, drop, length-drop, length-append}
use renogy_x.Base.{take-append_short, drop-append_short, drop-add, drop_all}
use renogy_x.Tty.Parse.{Parse, IsParse}
use renogy_x.Tty.Subscriber.{Info, process_csck_in, serve, seen, between}
use renogy_x.Tty.Frame.{Frame, bytes, stream_of, length-bytes}
use renogy_x.Tty.Calls.{IsAt, Step, goes_on, ends, step, IsAt-length, IsAt-bounds}

module _ (P : Parse) {App : Type 0} (process_msg : List ℕ → App → Option App) where
  -- The messages handled one by one, until one of them fails.
  unfoldable pub handle_all : List (Frame P) → App → Option App
  handle_all [] app = some app
  handle_all (f ∷ fs) app = elim (process_msg f.payload app) [
    | none ↦ none
    | some next ↦ handle_all fs next
  ]

  module _ (laws : IsParse P) where
    -- From any place in a message on, `fuel` calls are enough for a stream that is not longer.
    Served : (ℕ → ℕ) → ℕ → Type 0
    Served pick fuel =
        (f : Frame P) (fs : List (Frame P)) (j : ℕ) (info : Info App)
        → IsAt P process_msg laws f j info
        → length (drop j (bytes P f) ++ stream_of P fs) ≤ fuel
        → Option.map seen
            (serve P process_msg pick fuel (drop j (bytes P f) ++ stream_of P fs) info)
          ≡ Option.map between (handle_all (f ∷ fs) info.app)

    -- The calls that follow one.
    next_calls : (ℕ → ℕ) → ℕ → List ℕ → Option (Info App) → Option (Info App)
    next_calls pick fuel stream none = none
    next_calls pick fuel stream (some next) = serve P process_msg pick fuel stream next

    -- How many bytes the next call is given.
    abbrev asked : (ℕ → ℕ) → ℕ → Info App → ℕ
    asked pick fuel info = min (info.to_read - length info.buffer) (suc (pick fuel))

    asked_bounds :
        (pick : ℕ → ℕ) (fuel : ℕ) (f : Frame P) (j : ℕ) (info : Info App)
        → IsAt P process_msg laws f j info
        → let n = asked pick fuel info in
          (0 < n) × (n ≤ info.to_read - length info.buffer) × (j + n ≤ f.size)
    asked_bounds pick fuel f j info at = omega (
      arith,
      IsAt-length P process_msg laws f j info at,
      IsAt-bounds P process_msg laws f j info at,
    )

    serve-call :
        (pick : ℕ → ℕ) (fuel : ℕ) (stream : List ℕ) (info : Info App)
        → 0 < length stream
        → serve P process_msg pick (suc fuel) stream info
          ≡ next_calls pick fuel
              (drop (asked pick fuel info) stream)
              (process_csck_in P process_msg (take (asked pick fuel info) stream) info)
    unfolding serve next_calls
    serve-call pick fuel [] info h = absurd (omega arith)
    serve-call pick fuel (b ∷ stream) info h = ground arith

    -- Between two messages.
    between_messages :
        (pick : ℕ → ℕ) (fuel : ℕ)
        → Served pick fuel
        → (fs : List (Frame P)) (info : Info App) (app : App) → info.buffer ≡ []
        → info.to_read ≡ 4
        → info.app ≡ app
        → length (stream_of P fs) ≤ fuel
        → Option.map seen (serve P process_msg pick fuel (stream_of P fs) info)
          ≡ Option.map between (handle_all fs app)
    unfolding serve stream_of handle_all Served
    between_messages pick fuel served [] info app empty header same enough =
        ap some (cc (empty, header, same))
    between_messages pick fuel served (f ∷ fs) info app empty header same enough =
        served f fs 0 info
          (record {
            short = omega (arith, f.sized);
            received = empty;
            in_header = λ _. header;
            in_payload = λ h. absurd (omega (arith, h));
          })
          enough
        ∙ ap (λ a. Option.map between (handle_all (f ∷ fs) a)) same

    left_over :
        (f : Frame P) (fs : List (Frame P)) (j n : ℕ)
        → j + n ≤ f.size
        → drop n (drop j (bytes P f) ++ stream_of P fs) ≡ drop (j + n) (bytes P f) ++ stream_of P fs
    left_over f fs j n within =
        drop-append_short n (drop j (bytes P f)) (stream_of P fs)
          (omega (arith, length-drop j (bytes P f), length-bytes P laws f, within))
        ∙ ap (λ l. l ++ stream_of P fs) (drop-add j n (j + n) (bytes P f) refl)

    left_shorter :
        (f : Frame P) (fs : List (Frame P)) (j n fuel : ℕ)
        → 0 < n
        → j + n ≤ f.size
        → length (drop j (bytes P f) ++ stream_of P fs) ≤ suc fuel
        → length (drop (j + n) (bytes P f) ++ stream_of P fs) ≤ fuel
    left_shorter f fs j n fuel h within enough = omega (
      arith,
      length-append (drop j (bytes P f)) (stream_of P fs),
      length-append (drop (j + n) (bytes P f)) (stream_of P fs),
      length-drop j (bytes P f),
      length-drop (j + n) (bytes P f),
      length-bytes P laws f,
      h,
      within,
      enough,
    )

    next_step :
        (pick : ℕ → ℕ) (fuel : ℕ)
        → Served pick fuel
        → (f : Frame P) (fs : List (Frame P)) (j n : ℕ) (info : Info App) → 0 < n
        → j + n ≤ f.size
        → length (drop j (bytes P f) ++ stream_of P fs) ≤ suc fuel
        → Step P process_msg laws f j n info
        → Option.map seen (
            next_calls pick fuel
              (drop (j + n) (bytes P f) ++ stream_of P fs)
              (process_csck_in P process_msg (take n (drop j (bytes P f))) info))
          ≡ Option.map between (handle_all (f ∷ fs) info.app)
    unfolding next_calls handle_all Served
    next_step pick fuel served f fs j n info h within enough (goes_on next e at same) =
        ap
          (λ o.
            Option.map seen (next_calls pick fuel (drop (j + n) (bytes P f) ++ stream_of P fs) o))
          e
        ∙ served f fs (j + n) next at (left_shorter f fs j n fuel h within enough)
        ∙ ap (λ a. Option.map between (handle_all (f ∷ fs) a)) same
    next_step pick fuel served f fs j n info h within enough (ends over clean total e) =
        ap
          (λ o.
            Option.map seen (next_calls pick fuel (drop (j + n) (bytes P f) ++ stream_of P fs) o))
          e
        ∙ ap
            (λ l. Option.map seen (
              next_calls pick fuel (l ++ stream_of P fs)
                (Option.map over (process_msg f.payload info.app))))
            done
        ∙ after (process_msg f.payload info.app)
      where
        done : drop (j + n) (bytes P f) ≡ []
        done = drop_all (j + n) (bytes P f) (omega (arith, total, length-bytes P laws f))

        after :
            (o : Option App)
            → Option.map seen (next_calls pick fuel (stream_of P fs) (Option.map over o))
              ≡ Option.map between (elim o [ none ↦ none | some next ↦ handle_all fs next ])
        after none = refl
        after (some app) =
            let (empty, header, same) = clean app in
            between_messages pick fuel served fs (over app) app empty header same (
              omega (
                arith,
                left_shorter f fs j n fuel h within enough,
                ap (λ l. length (l ++ stream_of P fs)) done,
              ))

    served : (pick : ℕ → ℕ) (fuel : ℕ) → Served pick fuel
    unfolding Served
    served pick zero f fs j info at enough = absurd (
        omega (
          arith,
          length-append (drop j (bytes P f)) (stream_of P fs),
          length-drop j (bytes P f),
          length-bytes P laws f,
          at.short,
        ))
    served pick (suc fuel) f fs j info at enough =
        let n = asked pick fuel info in
        let (some_bytes, fits, within) = asked_bounds pick fuel f j info at in
        let stream = drop j (bytes P f) ++ stream_of P fs in
        ap (Option.map seen) (
          serve-call pick fuel stream info (
            omega (
              arith,
              length-append (drop j (bytes P f)) (stream_of P fs),
              length-drop j (bytes P f),
              length-bytes P laws f,
              at.short,
            ))
          ∙ ap (λ l. next_calls pick fuel l (process_csck_in P process_msg (take n stream) info))
              (left_over f fs j n within)
          ∙ ap
              (λ l.
                next_calls pick fuel (drop (j + n) (bytes P f) ++ stream_of P fs)
                  (process_csck_in P process_msg l info))
              (take-append_short n (drop j (bytes P f)) (stream_of P fs)
                (omega (arith, length-drop j (bytes P f), length-bytes P laws f, within))))
        ∙ next_step pick fuel (served pick fuel) f fs j n info some_bytes within enough
            (step P process_msg laws f j n info at some_bytes fits)

    -- However the connection cuts the stream of the messages, a subscriber that waits for a header
    -- handles the messages one by one and in order, until one of them fails, and then waits for a
    -- header again, within as many calls as there are bytes.
    pub serve-stream_of :
        (pick : ℕ → ℕ) (fuel : ℕ) (fs : List (Frame P)) (info : Info App)
        → info.buffer ≡ []
        → info.to_read ≡ 4
        → length (stream_of P fs) ≤ fuel
        → Option.map seen (serve P process_msg pick fuel (stream_of P fs) info)
          ≡ Option.map between (handle_all fs info.app)
    serve-stream_of pick fuel fs info empty header enough =
        between_messages pick fuel (served pick fuel) fs info info.app empty header refl enough
