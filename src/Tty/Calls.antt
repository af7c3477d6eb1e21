-- ===== src/Tty/Calls.antt =====
-- What one call of `process_csck_in` (tty_reader/tty_reader_heyu.zig, tty_reader/tty_reader_influx.zig)
-- makes of a piece of a message.
use mathlib.Core.Option
use renogy_x.Base.{ℕ, ◌+◌, ◌-◌, ◌<◌, ◌≤◌}
use renogy_x.Base.{◌≡◌, refl, ap, ◌∙◌, arith, ◌⊎◌, inl, inr}
use renogy_x.Base.{Option, some, List, [], ◌∷◌, ◌++◌}
use renogy_x.Base.{length, take, drop, length-take, length-drop, take-add, take_all}
use renogy_x.Tty.Parse.{Parse, IsParse}
use renogy_x.Tty.Subscriber.{Info, on_header, on_message, process_csck_in}
use renogy_x.Tty.Frame.{Frame, bytes, length-bytes, drop-bytes, read_code, read_size}

module _ (P : Parse) {App : Type 0} (process_msg : List ℕ → App → Option App)
    (laws : IsParse P) where
  -- The first `j` bytes of a message are there.
  pub record IsAt (f : Frame P) (j : ℕ) (info : Info App) : Type 0 where
    pub short : j < f.size
    pub received : info.buffer ≡ take j (bytes P f)
    pub in_header : j < 4 → info.to_read ≡ 4
    pub in_payload : 4 ≤ j → (info.to_read ≡ f.size) × (info.code ≡ 0)

  -- The header of a message makes the subscriber wait for the rest of it.
  header_read :
      (f : Frame P) (info : Info App)
      → info.buffer ≡ take 4 (bytes P f)
      → on_header P process_msg info
        ≡ some (record info { code = 0; size = f.size; to_read = f.size })
  unfolding on_header
  header_read f info e =
      let both : P.in_u16_le info.buffer ≡ (0, P.out_u16_le f.size) =
        ap P.in_u16_le e ∙ read_code P laws f in
      ground (arith, both, read_size P laws f, f.sized, f.some_payload)

  message_read :
      (f : Frame P) (info : Info App)
      → info.buffer ≡ bytes P f
      → info.code ≡ 0
      → on_message P process_msg info
        ≡ Option.map
            (λ app. record info { buffer = []; to_read = 4; app = app })
            (process_msg f.payload info.app)
  unfolding on_message
  message_read f info e code =
      let payload : drop 4 info.buffer ≡ f.payload = ap (drop 4) e ∙ drop-bytes P laws f in
      ground (arith, payload)

  abbrev arrived : List ℕ → Info App → Info App
  arrived got info = record info { buffer = info.buffer ++ got }

  process_part :
      (got : List ℕ) (info : Info App)
      → 0 < length got
      → length (info.buffer ++ got) < info.to_read
      → process_csck_in P process_msg got info ≡ some (arrived got info)
  unfolding process_csck_in
  process_part [] info h part = absurd (omega arith)
  process_part (b ∷ got) info h part = ground arith

  process_header :
      (got : List ℕ) (info : Info App)
      → 0 < length got
      → length (info.buffer ++ got) ≡ info.to_read
      → info.to_read ≡ 4
      → process_csck_in P process_msg got info ≡ on_header P process_msg (arrived got info)
  unfolding process_csck_in
  process_header [] info h whole header = absurd (omega arith)
  process_header (b ∷ got) info h whole header = ground arith

  process_message :
      (got : List ℕ) (info : Info App)
      → 0 < length got
      → length (info.buffer ++ got) ≡ info.to_read
      → 4 < info.to_read
      → process_csck_in P process_msg got info ≡ on_message P process_msg (arrived got info)
  unfolding process_csck_in
  process_message [] info h whole long = absurd (omega arith)
  process_message (b ∷ got) info h whole long = ground arith

  -- What a call makes of `n` more bytes of a message of which `j` are there.
  pub data Step (f : Frame P) (j n : ℕ) (info : Info App) : Type 0 where
    goes_on :
        (next : Info App)
        → process_csck_in P process_msg (take n (drop j (bytes P f))) info ≡ some next
        → IsAt f (j + n) next
        → next.app ≡ info.app
        → Step f j n info
    ends :
        (over : App → Info App)
        → ((app : App)
            → ((over app).buffer ≡ []) × ((over app).to_read ≡ 4) × ((over app).app ≡ app))
        → j + n ≡ f.size
        → process_csck_in P process_msg (take n (drop j (bytes P f))) info
          ≡ Option.map over (process_msg f.payload info.app)
        → Step f j n info

  pub IsAt-length : (f : Frame P) (j : ℕ) (info : Info App) → IsAt f j info → length info.buffer ≡ j
  IsAt-length f j info at =
      ap length at.received
      ∙ omega (arith, length-take j (bytes P f), length-bytes P laws f, at.short)

  -- A call asks for bytes of the message at hand only.
  pub IsAt-bounds :
      (f : Frame P) (j : ℕ) (info : Info App)
      → IsAt f j info
      → (length info.buffer < info.to_read) × (info.to_read ≤ f.size)
  IsAt-bounds f j info at = go (ground arith)
    where
      go : ((j < 4) ⊎ (4 ≤ j)) → (length info.buffer < info.to_read) × (info.to_read ≤ f.size)
      go (inl header) = omega (arith, at.in_header header, IsAt-length f j info at, f.sized, header)
      go (inr payload) =
          let (size, code) = at.in_payload payload in
          omega (arith, size, IsAt-length f j info at, at.short)

  pub step :
      (f : Frame P) (j n : ℕ) (info : Info App)
      → IsAt f j info
      → 0 < n
      → n ≤ info.to_read - length info.buffer
      → Step f j n info
  step f j n info at some_bytes asked = go (ground arith) (ground arith)
    where
      got : List ℕ
      got = take n (drop j (bytes P f))

      held : length info.buffer ≡ j
      held = IsAt-length f j info at

      within : j + n ≤ f.size
      within = omega (arith, held, asked, IsAt-bounds f j info at)

      some_got : 0 < length got
      some_got = omega (
        arith,
        length-take n (drop j (bytes P f)),
        length-drop j (bytes P f),
        length-bytes P laws f,
        some_bytes,
        within,
      )

      joined : info.buffer ++ got ≡ take (j + n) (bytes P f)
      joined = ap (λ l. l ++ got) at.received ∙ take-add j n (j + n) (bytes P f) refl

      together : length (info.buffer ++ got) ≡ j + n
      together =
          ap length joined
          ∙ omega (arith, length-take (j + n) (bytes P f), length-bytes P laws f, within)

      go : ((j < 4) ⊎ (4 ≤ j)) → ((j + n < info.to_read) ⊎ (info.to_read ≤ j + n)) → Step f j n info
      go (inl header) (inl part) =
          goes_on (arrived got info)
            (process_part got info some_got (omega (arith, together, part)))
            (record {
              short = omega (arith, part, at.in_header header, f.sized);
              received = joined;
              in_header = λ _. at.in_header header;
              in_payload = λ h. absurd (omega (arith, at.in_header header, part, h));
            })
            refl
      go (inl header) (inr whole) =
          let total : j + n ≡ 4 = omega (arith, at.in_header header, whole, asked, held) in
          goes_on (record (arrived got info) { code = 0; size = f.size; to_read = f.size })
            (process_header got info some_got (omega (arith, together, total, at.in_header header))
                (at.in_header header)
              ∙ header_read f (arrived got info) (joined ∙ ap (λ k. take k (bytes P f)) total))
            (record {
              short = omega (arith, total, f.sized, f.some_payload);
              received = joined;
              in_header = λ h. absurd (omega (arith, h, total));
              in_payload = λ _. (refl, refl);
            })
            refl
      go (inr payload) (inl part) =
          let (size, code) = at.in_payload payload in
          goes_on (arrived got info)
            (process_part got info some_got (omega (arith, together, part)))
            (record {
              short = omega (arith, part, size);
              received = joined;
              in_header = λ h. absurd (omega (arith, h, payload));
              in_payload = λ _. (size, code);
            })
            refl
      go (inr payload) (inr whole) =
          let (size, code) = at.in_payload payload in
          let total : j + n ≡ f.size = omega (arith, whole, size, within) in
          ends (λ app. record (arrived got info) { buffer = []; to_read = 4; app = app })
            (λ app. (refl, refl, refl)) total
            (process_message got info some_got (omega (arith, together, total, size))
                (omega (arith, size, f.sized, f.some_payload))
              ∙ message_read f (arrived got info)
                  (joined
                    ∙ take_all (j + n) (bytes P f) (omega (arith, total, length-bytes P laws f)))
                  code)
