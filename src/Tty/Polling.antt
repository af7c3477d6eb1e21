-- ===== src/Tty/Polling.antt =====
-- The sockets of the peers over a call of `check_peers` (tty_reader/tty_reader.zig).
use renogy_x.Base.{ℕ, ◌+◌, ◌<◌, ◌≤◌, ltb, if◌then◌else◌}
use renogy_x.Base.{◌≡◌, refl, ap, subst, sym, ◌∙◌, arith, ◌⊎◌, inl, inr}
use renogy_x.Base.{Bool, true, false, Option, none, some, List, [], ◌∷◌, ◌++◌}
use renogy_x.Base.{length}
use renogy_x.Base.{ℤ, pos, negsuc, ◌==ℤ◌}
use renogy_x.Tty.Peers.{Peer, advance, send_head, can_send}
use renogy_x.Tty.Loop.{
  Polled, mark, with_peer, with_peer_if, check_peer, check_each, add_polls, report,
}

abbrev pub scks : List Peer → List ℤ
scks [] = []
scks (peer ∷ peers) = peer.sck ∷ scks peers

abbrev pub Among : ℤ → List ℤ → Type 0
Among sck [] = ⊥
Among sck (s ∷ l) = (s ≡ sck) ⊎ Among sck l

-- A change of the peers that leaves their sockets.
pub data Changed (peers : List Peer) (o : Option (List Peer)) : Type 0 where
  changed : (next : List Peer) → o ≡ some next → scks next ≡ scks peers → Changed peers o

==ℤ-refl : (z : ℤ) → (z ==ℤ z) ≡ true
==ℤ-refl (pos n) = ground arith
==ℤ-refl (negsuc n) = ground arith

with_peer-Changed :
    (sck : ℤ) (change : Peer → Peer) (peers : List Peer)
    → ((peer : Peer) → (change peer).sck ≡ peer.sck)
    → Among sck (scks peers)
    → Changed peers (with_peer sck change peers)
unfolding with_peer
with_peer-Changed sck change [] same h = absurd h
with_peer-Changed sck change (peer ∷ peers) same h =
    go (peer.sck ==ℤ sck) refl h (with_peer-Changed sck change peers same)
  where
    go :
        (b : Bool)
        → (peer.sck ==ℤ sck) ≡ b
        → Among sck (scks (peer ∷ peers))
        → (Among sck (scks peers) → Changed peers (with_peer sck change peers))
        → Changed (peer ∷ peers) (
            if b then some (change peer ∷ peers) else elim (with_peer sck change peers) [
              | none ↦ none
              | some others ↦ some (peer ∷ others)
            ])
    go true e h rec = changed (change peer ∷ peers) refl (ap (λ s. s ∷ scks peers) (same peer))
    go false e (inl here) rec =
        let no : true ≡ false = sym (==ℤ-refl sck) ∙ ap (λ z. z ==ℤ sck) (sym here) ∙ e in cc no
    go false e (inr there) rec = later (rec there)
      where
        later :
            Changed peers (with_peer sck change peers)
            → Changed (peer ∷ peers) (elim (with_peer sck change peers) [
              | none ↦ none
              | some others ↦ some (peer ∷ others)
            ])
        later (changed next some_next kept) =
            changed (peer ∷ next) (cc some_next) (ap (λ l. peer.sck ∷ l) kept)

can_send-sck : (n : ℕ) (peer : Peer) → (can_send n peer).1.sck ≡ peer.sck
unfolding can_send send_head advance
can_send-sck n peer = ground arith

with_peer_if-Changed :
    (b : Bool) (sck : ℤ) (change : Peer → Peer) (peers : List Peer)
    → ((peer : Peer) → (change peer).sck ≡ peer.sck)
    → Among sck (scks peers)
    → Changed peers (with_peer_if b sck change peers)
with_peer_if-Changed true sck change peers same h = with_peer-Changed sck change peers same h
with_peer_if-Changed false sck change peers same h = changed peers refl refl

Changed-bind :
    (peers : List Peer) (o : Option (List Peer)) (k : List Peer → Option (List Peer))
    → Changed peers o
    → ((next : List Peer) → scks next ≡ scks peers → Changed next (k next))
    → Changed peers (elim o [ none ↦ none | some next ↦ k next ])
Changed-bind peers o k (changed next e same) h = go (h next same)
  where
    go : Changed next (k next) → Changed peers (elim o [ none ↦ none | some next ↦ k next ])
    go (changed last e' same') = changed last (cc (e, e')) (same' ∙ same)

marked-sck : (read : ℕ) (peer : Peer) → (if ltb read 1 then mark peer else peer).sck ≡ peer.sck
marked-sck read peer = ground arith

check_peer-Changed :
    (fd : ℤ) (polled : Polled) (peers : List Peer)
    → Among fd (scks peers)
    → Changed peers (check_peer fd polled peers)
unfolding check_peer
check_peer-Changed fd polled peers h =
    Changed-bind peers _ _
      (with_peer_if-Changed polled.readable fd _ peers (marked-sck polled.read) h)
      (λ next same.
        with_peer_if-Changed polled.writable fd _ next (can_send-sck polled.accepts)
          (subst (Among fd) (sym same) h))

abbrev pub AllAmong : List ℤ → List ℤ → Type 0
AllAmong [] l = Unit
AllAmong (fd ∷ fds) l = Among fd l × AllAmong fds l

pub check_each-Changed :
    (of_peer : ℤ → Polled) (fds : List ℤ) (peers : List Peer)
    → AllAmong fds (scks peers)
    → Changed peers (check_each (report of_peer fds) peers)
unfolding check_each AllAmong
check_each-Changed of_peer [] peers h = changed peers refl refl
check_each-Changed of_peer (fd ∷ fds) peers (here, h) =
    Changed-bind peers _ _ (check_peer-Changed fd (of_peer fd) peers here)
      (λ next same. check_each-Changed of_peer fds next (subst (AllAmong fds) (sym same) h))

pub Among-append : (sck : ℤ) (xs ys : List Peer) → Among sck (scks xs) → Among sck (scks (xs ++ ys))
Among-append sck [] ys h = absurd h
Among-append sck (x ∷ xs) ys (inl here) = inl here
Among-append sck (x ∷ xs) ys (inr there) = inr (Among-append sck xs ys there)

-- The peers that were polled are still there.
pub AllAmong-scks :
    (xs zs : List Peer)
    → ((sck : ℤ) → Among sck (scks xs) → Among sck (scks zs))
    → AllAmong (scks xs) (scks zs)
unfolding AllAmong
AllAmong-scks [] zs h = tt
AllAmong-scks (x ∷ xs) zs h = (h x.sck (inl refl), AllAmong-scks xs zs (λ sck m. h sck (inr m)))

pub add_polls-some :
    (poll_count : ℕ) (peers : List Peer)
    → poll_count + length peers ≤ 32
    → add_polls poll_count peers ≡ some (scks peers)
unfolding add_polls
add_polls-some poll_count [] h = refl
add_polls-some poll_count (peer ∷ peers) h =
    ground (arith, add_polls-some (poll_count + 1) peers (omega arith))

pub add_polls-none :
    (poll_count : ℕ) (peers : List Peer)
    → 32 < poll_count + length peers
    → poll_count ≤ 32
    → add_polls poll_count peers ≡ none
unfolding add_polls
add_polls-none poll_count [] h small = absurd (omega arith)
add_polls-none poll_count (peer ∷ peers) h small =
    go (ltb poll_count 32) refl (add_polls-none (poll_count + 1) peers)
  where
    go :
        (b : Bool)
        → ltb poll_count 32 ≡ b
        → (32 < poll_count + 1 + length peers
            → poll_count + 1 ≤ 32
            → add_polls (poll_count + 1) peers ≡ none)
        → (if b
            then elim (add_polls (poll_count + 1) peers) [
              | none ↦ none
              | some fds ↦ some (peer.sck ∷ fds)
            ]
            else none)
          ≡ none
    go true e rec = cc (rec (omega arith) (ground (arith, e)))
    go false e rec = refl
