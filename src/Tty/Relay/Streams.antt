-- ===== src/Tty/Relay/Streams.antt =====
-- What tty_reader/tty_reader_influx.zig sends on a connection is whole requests.
use Prim.Native.Nat.{min}
use mathlib.Core.List.{append_assoc, append-nil}
use renogy_x.Base.{ℕ}
use renogy_x.Base.{◌≡◌, refl, ap, subst, sym, ◌∙◌}
use renogy_x.Base.{Option, none, some, List, [], ◌∷◌, ◌++◌, ℤ, length, take, drop}
use renogy_x.Base.{take-append-drop}
use renogy_x.Tty.After.{After, After-none, After-some}
use renogy_x.Tty.Peers.{Send, out_slice, left_after}
use renogy_x.Tty.Queue.{pending, pending-append, pending-left_after}
use renogy_x.Tty.Relay.Settings.{Settings, made, Net}
use renogy_x.Tty.Relay.Points.{Relay, request, process_msg_table}

-- Whole requests, one behind the other.
pub data ArePosted : List ℕ → Type 0 where
  nothing : ArePosted []
  another :
      (posted text : List ℕ) (settings : Settings) (table_name value : List ℕ)
      → ArePosted posted
      → request settings table_name value ≡ some text
      → ArePosted (posted ++ text)

module _ (N : Net) (stream : N.World → List ℕ) where
  -- `stream` is what has gone out on the last connection that was made.
  pub record IsCarried : Type 0 where
    pub of_made :
        (settings : Settings) (w w' : N.World) (sck : ℤ)
        → N.attempt settings w ≡ (made sck, w')
        → stream w' ≡ []
    pub of_send :
        (sck : ℤ) (bytes : List ℕ) (w w' : N.World) (n : ℕ)
        → N.send sck bytes w ≡ (some n, w')
        → stream w' ≡ stream w ++ take (min n (length bytes)) bytes

  -- What has gone out, with what still waits, is whole requests where there is a connection.
  abbrev pub Whole : Option ℤ → List Send → N.World → Type 0
  Whole none queue w = Unit
  Whole (some sck) queue w = ArePosted (stream w ++ pending queue)

  abbrev pub IsWhole : Relay N → Type 0
  IsWhole info = Whole info.isck info.queue info.world

  -- And nothing waits where there is none.
  abbrev pub Clean : Option ℤ → List Send → N.World → Type 0
  Clean none queue w = queue ≡ []
  Clean (some sck) queue w = ArePosted (stream w ++ pending queue)

  abbrev pub IsClean : Relay N → Type 0
  IsClean info = Clean info.isck info.queue info.world

  pub Clean-Whole :
      (isck : Option ℤ) (queue : List Send) (w : N.World) → Clean isck queue w → Whole isck queue w
  Clean-Whole none queue w h = tt
  Clean-Whole (some sck) queue w h = h

  -- A request is added.
  queued-Whole :
      (isck : Option ℤ) (queue : List Send) (w : N.World) (settings : Settings)
      (table_name value text : List ℕ)
      → request settings table_name value ≡ some text
      → Whole isck queue w
      → Whole isck (queue ++ (record { sent = 0; out_data_slice = text } ∷ [])) w
  unfolding pending
  queued-Whole none queue w settings table_name value text e h = tt
  queued-Whole (some sck) queue w settings table_name value text e h =
      subst ArePosted
        (append_assoc (stream w) (pending queue) text
          ∙ ap (λ l. stream w ++ (pending queue ++ l)) (sym (append-nil text))
          ∙ ap (λ l. stream w ++ l)
              (sym (pending-append queue (record { sent = 0; out_data_slice = text } ∷ []))))
        (another _ text settings table_name value h e)

  pub process_msg_table-IsWhole :
      (table_name : List ℕ) (value divisor : ℕ) (info : Relay N)
      → IsWhole info
      → After IsWhole (process_msg_table N table_name value divisor info)
  unfolding process_msg_table
  process_msg_table-IsWhole table_name value divisor info h =
      go (request info.settings table_name (N.fixed value divisor)) refl
    where
      go :
          (o : Option (List ℕ))
          → request info.settings table_name (N.fixed value divisor) ≡ o
          → After IsWhole (elim o [
            | none ↦ none
            | some str2 ↦ some (record info {
              queue = info.queue ++ (record { sent = 0; out_data_slice = str2 } ∷ []);
            })
          ])
      go none e = After-none IsWhole
      go (some text) e =
          After-some IsWhole _
            (queued-Whole info.isck info.queue info.world info.settings table_name _ text e h)

  -- Bytes of the first request go out.
  pub sent-Whole :
      (laws : IsCarried) (isck : Option ℤ) (sck : ℤ) (asend : Send) (rest : List Send)
      (w w' : N.World) (n : ℕ)
      → N.send sck (out_slice asend) w ≡ (some n, w')
      → Whole isck (asend ∷ rest) w
      → Whole isck (left_after (min n (length (out_slice asend))) asend rest) w'
  unfolding pending
  sent-Whole laws none sck asend rest w w' n e h = tt
  sent-Whole laws (some s) sck asend rest w w' n e h =
      let slice = out_slice asend in
      let sent = min n (length slice) in
      subst ArePosted
        (ap (λ l. stream w ++ (l ++ pending rest)) (sym (take-append-drop sent slice))
          ∙ ap (λ l. stream w ++ l)
              (append_assoc (take sent slice) (drop sent slice) (pending rest))
          ∙ sym (append_assoc (stream w) (take sent slice) (drop sent slice ++ pending rest))
          ∙ ap (λ l. l ++ (drop sent slice ++ pending rest)) (sym (laws.of_send sck slice w w' n e))
          ∙ ap (λ l. stream w' ++ l) (sym (pending-left_after sent asend rest)))
        h
