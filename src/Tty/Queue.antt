-- ===== src/Tty/Queue.antt =====
-- A peer gets the messages that are queued for it, in order (tty_reader/tty_reader.zig).
use mathlib.Core.List.{append_assoc, append-nil}
use renogy_x.Base.{ℕ, ◌+◌, ltb, leb}
use renogy_x.Base.{◌≡◌, refl, ap, sym, ◌∙◌, arith, if◌then◌else◌}
use renogy_x.Base.{Bool, true, false, List, [], ◌∷◌, ◌++◌}
use renogy_x.Base.{length, take, drop, drop-add, drop_all, take-append-drop}
use renogy_x.Tty.Peers.{Send, Peer, Event, added, writable}
use renogy_x.Tty.Peers.{
  add_send, out_slice, accepted, left_after, advance, send_head, can_send, serve_peer,
}

-- What is still to go out.
unfoldable pub pending : List Send → List ℕ
pending [] = []
pending (asend ∷ queue) = out_slice asend ++ pending queue

-- The bytes of the messages that are queued.
unfoldable pub added_of : List Event → List ℕ
added_of [] = []
added_of (added slice ∷ events) = slice ++ added_of events
added_of (writable n ∷ events) = added_of events

pub pending-append : (xs ys : List Send) → pending (xs ++ ys) ≡ pending xs ++ pending ys
unfolding pending
pending-append [] ys = refl
pending-append (x ∷ xs) ys =
    ap (λ l. out_slice x ++ l) (pending-append xs ys)
    ∙ sym (append_assoc (out_slice x) (pending xs) (pending ys))

pending-add_send :
    (slice : List ℕ) (peer : Peer)
    → pending (add_send slice peer).queue ≡ pending peer.queue ++ slice
unfolding add_send pending
pending-add_send slice peer =
    pending-append peer.queue (record { sent = 0; out_data_slice = slice } ∷ [])
    ∙ ap (λ l. pending peer.queue ++ l) (append-nil slice)

pub pending-left_after :
    (n : ℕ) (asend : Send) (rest : List Send)
    → pending (left_after n asend rest) ≡ drop n (out_slice asend) ++ pending rest
unfolding left_after pending
pending-left_after n asend rest = go (leb (length asend.out_data_slice) (asend.sent + n)) refl
  where
    moved : drop n (out_slice asend) ≡ drop (asend.sent + n) asend.out_data_slice
    moved = drop-add asend.sent n (asend.sent + n) asend.out_data_slice refl

    go :
        (b : Bool)
        → leb (length asend.out_data_slice) (asend.sent + n) ≡ b
        → pending (if b then rest else record asend { sent = asend.sent + n } ∷ rest)
          ≡ drop n (out_slice asend) ++ pending rest
    go true e =
        ap (λ l. l ++ pending rest)
          (sym (moved ∙ drop_all (asend.sent + n) asend.out_data_slice (ground (arith, e))))
    go false e = ap (λ l. l ++ pending rest) (sym moved)

pending-advance :
    (n : ℕ) (asend : Send) (rest : List Send) (peer : Peer)
    → pending (advance n asend rest peer).queue ≡ drop n (out_slice asend) ++ pending rest
unfolding advance
pending-advance n asend rest peer = pending-left_after n asend rest

-- What goes out is taken from the front of what is still to go out.
send_head-pending :
    (n : ℕ) (asend : Send) (rest : List Send) (peer : Peer)
    → peer.queue ≡ asend ∷ rest
    → (send_head n asend rest peer).0 ++ pending (send_head n asend rest peer).1.queue
      ≡ pending (asend ∷ rest)
unfolding send_head pending
send_head-pending n asend rest peer e = go (ltb 0 sent)
  where
    sent : ℕ
    sent = accepted n asend

    branch : Bool → List ℕ × Peer
    branch b =
        if b
        then (take sent (out_slice asend), advance sent asend rest peer)
        else ([], record peer { delme = true })

    go : (b : Bool) → (branch b).0 ++ pending (branch b).1.queue ≡ out_slice asend ++ pending rest
    go true =
        ap (λ l. take sent (out_slice asend) ++ l) (pending-advance sent asend rest peer)
        ∙ sym (
            append_assoc (take sent (out_slice asend)) (drop sent (out_slice asend)) (pending rest))
        ∙ ap (λ l. l ++ pending rest) (take-append-drop sent (out_slice asend))
    go false = ap pending e

can_send-pending :
    (n : ℕ) (peer : Peer)
    → (can_send n peer).0 ++ pending (can_send n peer).1.queue ≡ pending peer.queue
unfolding can_send
can_send-pending n peer = go peer.queue refl
  where
    go :
        (queue : List Send)
        → peer.queue ≡ queue
        → let o : List ℕ × Peer = elim queue [
          | [] ↦ ([], peer)
          | asend ∷ rest ↦ send_head n asend rest peer
        ] in
          o.0 ++ pending o.1.queue ≡ pending queue
    go [] e = ap pending e
    go (asend ∷ rest) e = send_head-pending n asend rest peer e

-- A peer that is not marked at the end was not marked before.
goes_on :
    (gone : Bool) (over later : List ℕ × Peer)
    → over.1.delme ≡ gone
    → (elim gone as (λ _. List ℕ × Peer) [ true ↦ over | false ↦ later ]).1.delme ≡ false
    → ((elim gone as (λ _. List ℕ × Peer) [ true ↦ over | false ↦ later ]) ≡ later)
      × (later.1.delme ≡ false)
goes_on true over later e kept = cc (e, kept)
goes_on false over later e kept = (refl, kept)

-- Whatever is queued for a peer and however its connection takes it, as long as the peer is kept its
-- bytes are those of the messages, in order, less those that are still to go out.
pub pending-serve_peer :
    (events : List Event) (wire : List ℕ) (peer : Peer)
    → (serve_peer events (wire, peer)).1.delme ≡ false
    → (serve_peer events (wire, peer)).0 ++ pending (serve_peer events (wire, peer)).1.queue
      ≡ (wire ++ pending peer.queue) ++ added_of events
unfolding serve_peer added_of
pending-serve_peer [] wire peer kept = sym (append-nil (wire ++ pending peer.queue))
pending-serve_peer (added slice ∷ events) wire peer kept =
    pending-serve_peer events wire (add_send slice peer) kept
    ∙ ap (λ l. (wire ++ l) ++ added_of events) (pending-add_send slice peer)
    ∙ ap (λ l. l ++ added_of events) (sym (append_assoc wire (pending peer.queue) slice))
    ∙ append_assoc (wire ++ pending peer.queue) slice (added_of events)
pending-serve_peer (writable n ∷ events) wire peer kept =
    let bytes = (can_send n peer).0 in
    let next = (can_send n peer).1 in
    let (same, later) =
      goes_on next.delme (wire ++ bytes, next) (serve_peer events (wire ++ bytes, next)) refl
        kept in
    ap (λ o. o.0 ++ pending o.1.queue) same
    ∙ pending-serve_peer events (wire ++ bytes) next later
    ∙ ap (λ l. l ++ added_of events)
        (append_assoc wire bytes (pending next.queue)
          ∙ ap (λ l. wire ++ l) (can_send-pending n peer))
