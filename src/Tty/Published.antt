-- ===== src/Tty/Published.antt =====
-- What tty_reader/tty_reader.zig publishes, its subscribers get.
use mathlib.Core.Option
use mathlib.Core.Option.{some-injective}
use renogy_x.Base.{ℕ, ◌+◌, ◌*◌, ◌<◌, ◌≤◌}
use renogy_x.Base.{◌≡◌, refl, ap, sym, ◌∙◌, subst, ◌↔◌, arith}
use renogy_x.Base.{Option, none, some, List, [], ◌∷◌, ◌++◌}
use renogy_x.Base.{length, length-append}
use renogy_x.Tty.Parse.{Parse, IsParse}
use renogy_x.Tty.Publisher.{out_regs, msg_size, body, message}
use renogy_x.Tty.Frame.{Frame, bytes, stream_of}
use renogy_x.Tty.Subscriber.{Info, serve, seen, between}
use renogy_x.Tty.Stream.{handle_all, serve-stream_of}

-- What is read of a device: its kind of register, and the registers.
pub record Reading : Type 0 where
  pub type1 : ℕ
  pub id : ℕ
  pub address : ℕ
  pub count : ℕ
  pub regs : List ℕ

-- As many registers as were asked for.
abbrev pub AreRead : List Reading → Type 0
AreRead [] = Unit
AreRead (r ∷ rs) = (length r.regs ≡ r.count) × AreRead rs

module _ (P : Parse) where
  abbrev pub body_of : Reading → List ℕ
  body_of r = body P r.type1 r.id r.address r.count r.regs

  abbrev pub message_of : Reading → Option (List ℕ)
  message_of r = message P r.type1 r.id r.address r.count r.regs

  -- The messages one behind the other, as the queue of a peer sends them.
  unfoldable pub publish : List Reading → Option (List ℕ)
  publish [] = some []
  publish (r ∷ rs) = elim (message_of r) [
    | none ↦ none
    | some bytes ↦ elim (publish rs) [ none ↦ none | some stream ↦ some (bytes ++ stream) ]
  ]

  module _ {App : Type 0} (process_msg : List ℕ → App → Option App) where
    -- The bodies handled one by one, until one of them fails.
    unfoldable pub handle_bodies : List Reading → App → Option App
    handle_bodies [] app = some app
    handle_bodies (r ∷ rs) app = elim (process_msg (body_of r) app) [
      | none ↦ none
      | some next ↦ handle_bodies rs next
    ]

  -- Just a reading of more than 121 registers has no message: its size does not fit the eight bits of
  -- the count.
  pub message_limit :
      (type id address count : ℕ) (regs : List ℕ)
      → (message P type id address count regs ≡ none) ↔ (121 < count)
  unfolding message msg_size
  message_limit type id address count regs = ground arith

  module _ (laws : IsParse P) where
    length-out_regs : (regs : List ℕ) → length (out_regs P regs) ≡ length regs * 2
    unfolding out_regs
    length-out_regs [] = refl
    length-out_regs (areg ∷ regs) = omega (
      arith,
      length-append (P.out_u16_le areg) (out_regs P regs),
      laws.size areg,
      length-out_regs regs,
    )

    length-body : (r : Reading) → length (body_of r) ≡ 8 + length r.regs * 2
    unfolding body
    length-body r = omega (
      arith,
      length-append (P.out_u16_le r.type1) _,
      length-append (P.out_u16_le r.id) _,
      length-append (P.out_u16_le r.address) _,
      length-append (P.out_u16_le r.count) (out_regs P r.regs),
      laws.size r.type1,
      laws.size r.id,
      laws.size r.address,
      laws.size r.count,
      length-out_regs r.regs,
    )

    frame_of : (r : Reading) → length r.regs ≡ r.count → r.count ≤ 121 → Frame P
    frame_of r read fits = record {
      size = 12 + r.count * 2;
      payload = body_of r;
      some_payload = omega (arith, length-body r);
      sized = omega (arith, length-body r, read);
      fits = omega (arith, fits);
    }

    message-frame_of :
        (r : Reading) (read : length r.regs ≡ r.count) (fits : r.count ≤ 121)
        → message_of r ≡ some (bytes P (frame_of r read fits))
    unfolding message msg_size frame_of
    message-frame_of r read fits = ground arith

    module _ {App : Type 0} (process_msg : List ℕ → App → Option App) where
      -- Messages as the subscribers know them: the same bytes, and the same to handle.
      data Known (rs : List Reading) (stream : List ℕ) : Type 0 where
        known :
            (fs : List (Frame P))
            → stream_of P fs ≡ stream
            → ((app : App) → handle_all P process_msg fs app ≡ handle_bodies process_msg rs app)
            → Known rs stream

      prepended :
          (r : Reading) (rs : List Reading) (stream : List ℕ) (read : length r.regs ≡ r.count)
          (fits : r.count ≤ 121)
          → Known rs stream
          → Known (r ∷ rs) (bytes P (frame_of r read fits) ++ stream)
      unfolding handle_all handle_bodies stream_of frame_of
      prepended r rs stream read fits (known fs same handled) =
          known (frame_of r read fits ∷ fs) (ap (λ l. bytes P (frame_of r read fits) ++ l) same)
            (λ app. go (process_msg (body_of r) app))
        where
          go :
              (o : Option App)
              → (elim o [ none ↦ none | some next ↦ handle_all P process_msg fs next ])
                ≡ (elim o [ none ↦ none | some next ↦ handle_bodies process_msg rs next ])
          go none = refl
          go (some next) = handled next

      fits_of : (r : Reading) (bytes : List ℕ) → message_of r ≡ some bytes → r.count ≤ 121
      unfolding message msg_size
      fits_of r bytes e = ground (arith, e)

      publish-Known :
          (rs : List Reading) (stream : List ℕ)
          → AreRead rs
          → publish rs ≡ some stream
          → Known rs stream
      unfolding publish stream_of handle_bodies handle_all
      publish-Known [] stream read e =
          subst (Known []) (some-injective [] stream e) (known [] refl (λ app. refl))
      publish-Known (r ∷ rs) stream (here, read) e =
          go (message_of r) refl (publish rs) (publish-Known rs) refl e
        where
          go :
              (m : Option (List ℕ))
              → message_of r ≡ m
              → (later : Option (List ℕ))
              → ((rest : List ℕ) → AreRead rs → publish rs ≡ some rest → Known rs rest)
              → publish rs ≡ later
              → (elim m [
                | none ↦ none
                | some first ↦ elim later [ none ↦ none | some rest ↦ some (first ++ rest) ]
              ])
                ≡ some stream
              → Known (r ∷ rs) stream
          go none em later rec el h = cc h
          go (some first) em none rec el h = cc h
          go (some first) em (some rest) rec el h =
              let fits = fits_of r first em in
              let same : bytes P (frame_of r here fits) ++ rest ≡ stream =
                cc (message-frame_of r here fits, em, h) in
              subst (Known (r ∷ rs)) same (prepended r rs rest here fits (rec rest read el))

      -- The bytes of the messages of some readings, however the connection cuts them, make a subscriber
      -- that waits for a header handle their bodies one by one and in order, until one of them fails,
      -- and then wait for a header again, within as many calls as there are bytes.
      pub serve-publish :
          (pick : ℕ → ℕ) (fuel : ℕ) (rs : List Reading) (stream : List ℕ) (info : Info App)
          → AreRead rs
          → publish rs ≡ some stream
          → info.buffer ≡ []
          → info.to_read ≡ 4
          → length stream ≤ fuel
          → Option.map seen (serve P process_msg pick fuel stream info)
            ≡ Option.map between (handle_bodies process_msg rs info.app)
      serve-publish pick fuel rs stream info read e empty header enough =
          go (publish-Known rs stream read e)
        where
          go :
              Known rs stream
              → Option.map seen (serve P process_msg pick fuel stream info)
                ≡ Option.map between (handle_bodies process_msg rs info.app)
          go (known fs same handled) =
              subst
                (λ l.
                  Option.map seen (serve P process_msg pick fuel l info)
                  ≡ Option.map between (handle_all P process_msg fs info.app))
                same
                (serve-stream_of P process_msg laws pick fuel fs info empty header
                  (subst (λ l. length l ≤ fuel) (sym same) enough))
              ∙ ap (Option.map between) (handled info.app)
