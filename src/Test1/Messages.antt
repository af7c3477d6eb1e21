-- ===== src/Test1/Messages.antt =====
-- What the client puts on the line (libcm11a/test1.c on libcm11a/libcm11a.c): whole messages.
use renogy_x.Test1.Client.{Callback}
use renogy_x.Base.{ℕ, ◌-◌, ◌<◌}
use renogy_x.Base.{◌≡◌, ap, subst, refl, sym, ◌∙◌, arith, ◌⊎◌, inl, inr}
use mathlib.Core.List.{append_assoc, append-nil}
use renogy_x.Base.{false, none, some, List, [], ◌∷◌, ◌++◌}
use renogy_x.Base.{length, take, take_all}
use renogy_x.Base.{ℤ, pos, pos_part, negsuc, ltb_ℤ}
use renogy_x.Base.{FdSet, Timeval, Keeps}
use renogy_x.Cm11a.Device.{Host, State, Block, data_block}
use renogy_x.Cm11a.Write.{libcm11a_write_data, libcm11a_write_data_crc}
use renogy_x.Cm11a.Served.{check_wait_objs-Keeps}
use renogy_x.Cm11a.Serving.{IsStable, call_pointer-Keeps, write_call, written}
use renogy_x.Cm11a.Invariant.{bytes_of}
use renogy_x.Cm11a.Wire.{IsWire}
use renogy_x.Test1.Client.{client, call_client, main_loop}
use renogy_x.Test1.Loop.{
  Message, address, command, confirmation, time_answer, hand, IsKept, call_client-Keeps,
  main_loop-Keeps,
}

-- The bytes of a message.
abbrev pub encode : Message → List ℕ
encode address = 0x04 ∷ 0x6E ∷ []
encode command = 0x06 ∷ 0x62 ∷ []
encode confirmation = 0x00 ∷ []
encode time_answer = 0x9B ∷ []

-- The bytes of messages, one behind the other.
unfoldable pub encode_all : List Message → List ℕ
encode_all [] = []
encode_all (m ∷ ms) = encode m ++ encode_all ms

not_positive : (z : ℤ) → ltb_ℤ (pos 0) z ≡ false → pos_part z ≡ 0
not_positive (pos n) e = ground (arith, e)
not_positive (negsuc n) e = refl

encode_all_snoc :
    (ms : List Message) (m : Message) → encode_all (ms ++ (m ∷ [])) ≡ encode_all ms ++ encode m
unfolding encode_all
encode_all_snoc [] m = append-nil (encode m)
encode_all_snoc (l ∷ ms) m =
    ap (λ bs. encode l ++ bs) (encode_all_snoc ms m)
    ∙ sym (append_assoc (encode l) (encode_all ms) (encode m))

module _ (H : Host) (wire : H.World → List ℕ) where
  -- A line on which each write carries its data whole, or nothing of it, and nothing else is carried.
  pub record IsWhole : Type 0 where
    pub of_wire : IsWire (client H) (call_client H) wire
    pub of_select :
        (nfds : ℤ) (r w : FdSet) (t : Timeval) (v : H.World)
        → wire (H.select nfds r w t v).1 ≡ wire v
    pub of_read :
        (port : H.Handle) (n timeout : ℕ) (v : H.World)
        → wire (H.sp_blocking_read port n timeout v).1 ≡ wire v
    pub of_malloc : (b : Block) (n : ℕ) (v : H.World) → wire (H.malloc b n v).1 ≡ wire v
    pub at_once :
        (port : H.Handle) (bytes : List ℕ) (n timeout : ℕ) (v : H.World)
        → 0 < pos_part (H.sp_blocking_write port bytes n timeout v).0
        → pos_part (H.sp_blocking_write port bytes n timeout v).0 ≡ n

  -- What the line has carried, with the data that waits, is messages one behind the other, and
  -- nothing of the waiting data is sent.
  pub record IsFramed (s : State (client H)) : Type 0 where
    pub messages : List Message
    pub framed : wire s.world ++ bytes_of s.dev.data_buf ≡ encode_all messages
    pub unsent : s.dev.data_sent ≡ 0
    pub size : length (bytes_of s.dev.data_buf) ≡ s.dev.data_bytes

  -- What handing a message over does: nothing on a driver that has data, else the message waits.
  Handed : Message → State (client H) → State (client H) → Type 0
  Handed m s s' =
      (s' ≡ s)
      ⊎ ((s.dev.data_buf ≡ none)
          × (s'.dev.data_buf ≡ some (encode m))
          × (s'.dev.data_sent ≡ 0)
          × (s'.dev.data_bytes ≡ length (encode m))
          × (s'.world ≡ (H.malloc data_block (length (encode m)) s.world).1))

  hand-Handed :
      (m : Message) (s : State (client H)) (a : ℤ) (s' : State (client H))
      → hand H m s ≡ some (a, s')
      → Handed m s s'
  unfolding libcm11a_write_data_crc libcm11a_write_data Handed
  hand-Handed address s a s' e = ground arith
  hand-Handed command s a s' e = ground arith
  hand-Handed confirmation s a s' e = ground arith
  hand-Handed time_answer s a s' e = ground arith

  module _ (laws : IsWhole) where
    hand-IsFramed : (m : Message) → Keeps IsFramed (hand H m)
    unfolding Handed
    hand-IsFramed m s f a s' e = go (hand-Handed m s a s' e)
      where
        held : s.dev.data_buf ≡ none → wire s.world ≡ encode_all f.messages
        held free =
            sym (append-nil (wire s.world))
            ∙ ap (λ b. wire s.world ++ bytes_of b) (sym free)
            ∙ f.framed

        go : Handed m s s' → IsFramed s'
        go (inl same) = subst IsFramed (sym same) f
        go (inr (free, waits, unsent, size, carried)) = record {
          messages = f.messages ++ (m ∷ []);
          framed =
              ap (λ w. wire w ++ bytes_of s'.dev.data_buf) carried
              ∙ ap (λ b. wire (H.malloc data_block (length (encode m)) s.world).1 ++ bytes_of b)
                  waits
              ∙ ap (λ l. l ++ encode m) (laws.of_malloc _ _ s.world ∙ held free)
              ∙ sym (encode_all_snoc f.messages m);
          unsent = unsent;
          size = ap (λ b. length (bytes_of b)) waits ∙ sym size;
        }

    -- A world in which nothing more is carried.
    quiet :
        (s : State (client H)) (v : H.World)
        → wire v ≡ wire s.world
        → IsFramed s
        → IsFramed (record s { world = v })
    quiet s v same f = record {
      messages = f.messages;
      framed = ap (λ l. l ++ bytes_of s.dev.data_buf) same ∙ f.framed;
      unsent = f.unsent;
      size = f.size;
    }

    carried :
        (s : State (client H)) (bytes : List ℕ) (n : ℕ)
        → pos_part (write_call (client H) bytes s).0 ≡ n
        → wire (written (client H) bytes s).world ≡ wire s.world ++ take n bytes
    carried s bytes n took =
        laws.of_wire.of_write s.dev.port bytes (s.dev.data_bytes - s.dev.data_sent) 0 s.world
        ∙ ap (λ k. wire s.world ++ take k bytes) took

    -- A write that takes something takes all the data.
    all_taken :
        (s : State (client H)) (bytes : List ℕ) (n : ℕ)
        → IsFramed s
        → s.dev.data_buf ≡ some bytes
        → (write_call (client H) bytes s).0 ≡ pos n
        → 0 < n
        → (n ≡ s.dev.data_bytes) × (length bytes ≡ n)
    all_taken s bytes n f has took p =
        let size : length bytes ≡ s.dev.data_bytes =
          ap (λ b. length (bytes_of b)) (sym has) ∙ f.size in
        let part : pos_part (write_call (client H) bytes s).0 ≡ n = ap pos_part took in
        let at_once =
          laws.at_once s.dev.port bytes (s.dev.data_bytes - s.dev.data_sent) 0 s.world
            (omega (arith, part)) in
        omega (arith, f.unsent, at_once, part, size)

    Framed-IsStable :
        ((g : Callback) → Keeps IsFramed (call_client H g))
        → IsStable (client H) (call_client H) IsFramed
    Framed-IsStable calls = record {
      of_select = λ s nfds r w t. quiet s _ (laws.of_select nfds r w t s.world);
      of_read = λ s port. quiet s _ (laws.of_read port 1 0 s.world);
      of_answer = λ s f. record {
        messages = f.messages;
        framed = f.framed;
        unsent = f.unsent;
        size = f.size;
      };
      of_call = call_pointer-Keeps (client H) (call_client H) IsFramed calls;
      of_refused = λ s bytes f has refused.
          quiet s _ (carried s bytes 0 (not_positive _ refused) ∙ append-nil _) f;
      of_part = λ s bytes n f has took p part.
          absurd (omega (arith, all_taken s bytes n f has took p, f.unsent));
      of_whole = λ s bytes n f has took p whole. record {
        messages = f.messages;
        framed =
            append-nil _
            ∙ laws.of_wire.of_free data_block _
            ∙ carried s bytes n (ap pos_part took)
            ∙ ap (λ l. wire s.world ++ l)
                (take_all n bytes (omega (arith, all_taken s bytes n f has took p)))
            ∙ ap (λ b. wire s.world ++ bytes_of b) (sym has)
            ∙ f.framed;
        unsent = refl;
        size = refl;
      };
    }

    Framed-IsKept : IsKept H IsFramed
    Framed-IsKept = record {
      of_phase = λ s v f. record {
        messages = f.messages;
        framed = f.framed;
        unsent = f.unsent;
        size = f.size;
      };
      of_wait = λ s nfds r w t. quiet s _ (laws.of_select nfds r w t s.world);
      of_hand = hand-IsFramed;
    }

    -- On a line that carries each write whole or not at all, the loop keeps to whole messages: what the
    -- line has carried, with the data that still waits, is messages one behind the other if it was so
    -- at the start.
    pub main_loop-IsFramed : (fuel : ℕ) → Keeps IsFramed (main_loop H fuel)
    main_loop-IsFramed = main_loop-Keeps H IsFramed Framed-IsKept (
        check_wait_objs-Keeps (client H) (call_client H) IsFramed
          (Framed-IsStable (call_client-Keeps H IsFramed Framed-IsKept)))
