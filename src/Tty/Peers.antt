-- ===== src/Tty/Peers.antt =====
-- The queue of a peer (tty_reader/tty_reader.zig): `process_tty_id_info` adds messages to it and
-- `check_peers` sends them.
use Prim.Native.Nat.{min}
use renogy_x.Base.{ℕ, ◌+◌, ltb, leb, if◌then◌else◌}
use renogy_x.Base.{Bool, true, false, List, [], ◌∷◌, ◌++◌}
use renogy_x.Base.{length, take, drop}
use renogy_x.Base.{ℤ}

-- `send_t`, without the pointer to the next.
pub record Send : Type 0 where
  pub sent : ℕ
  pub out_data_slice : List ℕ

-- The fields of `tty_peer_info_t` but its input, which is not looked at. `queue` is the list from
-- `send_head` to `send_tail`.
pub record Peer : Type 0 where
  pub sck : ℤ
  pub delme : Bool
  pub queue : List Send

-- The end of `process_tty_id_info`, for one peer.
unfoldable pub add_send : List ℕ → Peer → Peer
add_send slice peer = record peer {
  queue = peer.queue ++ (record { sent = 0; out_data_slice = slice } ∷ []);
}

-- What is left of a message.
abbrev pub out_slice : Send → List ℕ
out_slice asend = drop asend.sent asend.out_data_slice

-- How much `posix.send` takes: no more than it is given, and nothing where it fails.
abbrev pub accepted : ℕ → Send → ℕ
accepted n asend = min n (length (out_slice asend))

-- The queue after `sent` more bytes of its first message.
unfoldable pub left_after : ℕ → Send → List Send → List Send
left_after sent asend rest =
    if leb (length asend.out_data_slice) (asend.sent + sent)
    then rest
    else record asend { sent = asend.sent + sent } ∷ rest

unfoldable pub advance : ℕ → Send → List Send → Peer → Peer
unfolding left_after
advance sent asend rest peer = record peer { queue = left_after sent asend rest }

-- Sending the first message of the queue, with the bytes that go out.
unfoldable pub send_head : ℕ → Send → List Send → Peer → List ℕ × Peer
unfolding advance
send_head n asend rest peer =
    let sent = accepted n asend in
    if ltb 0 sent
    then (take sent (out_slice asend), advance sent asend rest peer)
    else ([], record peer { delme = true })

-- The branch of `check_peers` for a peer that can be written to.
unfoldable pub can_send : ℕ → Peer → List ℕ × Peer
unfolding send_head
can_send n peer = elim peer.queue [ [] ↦ ([], peer) | asend ∷ rest ↦ send_head n asend rest peer ]

-- What happens to a peer.
pub data Event : Type 0 where
  added : List ℕ → Event
  writable : ℕ → Event

-- A peer that is marked is removed, and nothing more happens to it.
unfoldable pub serve_peer : List Event → List ℕ × Peer → List ℕ × Peer
unfolding add_send can_send
serve_peer [] (wire, peer) = (wire, peer)
serve_peer (added slice ∷ events) (wire, peer) = serve_peer events (wire, add_send slice peer)
serve_peer (writable n ∷ events) (wire, peer) =
    let (bytes, next) = can_send n peer in
    elim next.delme [
      | true ↦ (wire ++ bytes, next)
      | false ↦ serve_peer events (wire ++ bytes, next)
    ]
