-- ===== src/Tty/Rounds.antt =====
-- How a round of `tty_main_loop` of tty_reader/tty_reader.zig ends.
use renogy_x.Base.{◌<◌, ◌≤◌, if◌then◌else◌}
use renogy_x.Base.{◌≡◌, refl, ap, subst, sym, ◌∙◌, arith}
use renogy_x.Base.{Bool, true, false, Option, none, some, List, [], ◌∷◌}
use renogy_x.Base.{length}
use renogy_x.Base.{ℤ}
use renogy_x.Tty.Parse.{Parse}
use renogy_x.Tty.Peers.{Peer}
use renogy_x.Tty.Requests.{Line, Outcome, returned, raised, crashed, Tty}
use renogy_x.Tty.Loop.{
  check_each, check_peers, remove_marked, add_polls, Round, report, Next, again, ended, reloaded,
  before_poll, accept, reload_config, after_poll, loop_round,
}
use renogy_x.Tty.Polling.{
  scks, Changed, changed, check_each-Changed, AllAmong, Among-append, AllAmong-scks, add_polls-some,
  add_polls-none,
}

module _ (L : Line) (P : Parse) (round : Round) where
  -- A round comes back.
  pub data Returns (o : Outcome (Tty L P) Next) : Type 0 where
    returns : (k : Next) (next : Tty L P) → o ≡ returned k next → Returns o

  accept-AllAmong :
      (connection : Option ℤ) (peers : List Peer)
      → AllAmong (scks peers) (scks (accept L P connection peers))
  accept-AllAmong none peers = AllAmong-scks peers peers (λ sck m. m)
  accept-AllAmong (some sck) peers =
      AllAmong-scks peers (accept L P (some sck) peers) (λ s m. Among-append s peers _ m)

  polled-Returns :
      (info : Tty L P) (fds : List ℤ) (peers : List Peer)
      → AllAmong fds (scks peers)
      → Returns (elim fds [
        | [] ↦ returned again (record info { peer_list = peers })
        | fd ∷ more ↦ elim (check_peers (report round.of_peer (fd ∷ more)) peers) [
          | none ↦ raised (record info { peer_list = peers })
          | some left ↦ returned again (record info { peer_list = left })
        ]
      ])
  unfolding check_peers
  polled-Returns info [] peers h = returns again (record info { peer_list = peers }) refl
  polled-Returns info (fd ∷ more) peers h =
      go (check_each-Changed round.of_peer (fd ∷ more) peers h)
    where
      go :
          Changed peers (check_each (report round.of_peer (fd ∷ more)) peers)
          → Returns
              (elim (elim (check_each (report round.of_peer (fd ∷ more)) peers)
                  as (λ _. Option (List Peer)) [
                    | none ↦ none
                    | some next ↦ some (remove_marked (length next) next)
                  ])
                as (λ _. Outcome (Tty L P) Next) [
                  | none ↦ raised (record info { peer_list = peers })
                  | some left ↦ returned again (record info { peer_list = left })
                ])
      go (changed next e same) =
          returns again (record info { peer_list = remove_marked (length next) next }) (cc e)

  after_poll-Returns : (info : Tty L P) → Returns (after_poll L P round (scks info.peer_list) info)
  unfolding after_poll
  after_poll-Returns info = go round.term round.hup
    where
      peers : List Peer
      peers = accept L P round.connection info.peer_list

      go :
          (term hup : Bool)
          → Returns (
              if term
              then returned ended info
              else if hup
              then returned reloaded (reload_config L P round.config info)
              else elim (scks info.peer_list) [
                | [] ↦ returned again (record info { peer_list = peers })
                | fd ∷ more ↦ elim (check_peers (report round.of_peer (fd ∷ more)) peers) [
                  | none ↦ raised (record info { peer_list = peers })
                  | some left ↦ returned again (record info { peer_list = left })
                ]
              ])
      go true hup = returns ended info refl
      go false true = returns reloaded (reload_config L P round.config info) refl
      go false false =
          polled-Returns info (scks info.peer_list) peers
            (accept-AllAmong round.connection info.peer_list)

-- Once the requests of a round are made, it comes back, without PeerNotFound, exactly if there are at
-- most 29 peers: the array of sockets has 32 places, and no connection is refused.
pub loop_round_places :
    (L : Line) (P : Parse) (round : Round) (info mid : Tty L P)
    → before_poll L P info ≡ returned tt mid
    → (length mid.peer_list ≤ 29 → Returns L P round (loop_round L P round info))
      × (29 < length mid.peer_list → loop_round L P round info ≡ crashed)
unfolding loop_round
loop_round_places L P round info mid e = (fits, full)
  where
    rest : Option (List ℤ) → Outcome (Tty L P) Next
    rest o = elim o [ none ↦ crashed | some fds ↦ after_poll L P round fds mid ]

    whole : loop_round L P round info ≡ rest (add_polls 3 mid.peer_list)
    whole = cc e

    fits : length mid.peer_list ≤ 29 → Returns L P round (loop_round L P round info)
    fits h =
        subst (Returns L P round)
          (sym (whole ∙ ap rest (add_polls-some 3 mid.peer_list (omega arith))))
          (after_poll-Returns L P round mid)

    full : 29 < length mid.peer_list → loop_round L P round info ≡ crashed
    full h = whole ∙ ap rest (add_polls-none 3 mid.peer_list (omega arith) (omega arith))
