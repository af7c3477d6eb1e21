-- ===== src/Tty/Loop.antt =====
-- The loop of tty_reader/tty_reader.zig: `check_peers` and `tty_main_loop`.
use renogy_x.Base.{ℕ, zero, suc, ◌+◌, ltb, if◌then◌else◌}
use renogy_x.Base.{Bool, true, false, Option, none, some, List, [], ◌∷◌, ◌++◌}
use renogy_x.Base.{length, take, drop}
use renogy_x.Base.{ℤ, ◌==ℤ◌}
use renogy_x.Tty.Parse.{Parse}
use renogy_x.Tty.Peers.{Peer, can_send}
use renogy_x.Tty.Devices.{IdInfo, beginning}
use renogy_x.Tty.Requests.{Line, Outcome, returned, raised, crashed, Tty, check_modbus}

-- What `poll` reports of a peer's socket, with what `recv` and `send` then return, 0 for an error.
pub record Polled : Type 0 where
  pub readable : Bool
  pub read : ℕ
  pub writable : Bool
  pub accepts : ℕ

abbrev pub mark : Peer → Peer
mark peer = record peer { delme = true }

-- `get_peer_by_sck`, with what is then done to the peer; `none` where there is no such peer.
unfoldable pub with_peer : ℤ → (Peer → Peer) → List Peer → Option (List Peer)
with_peer sck change [] = none
with_peer sck change (peer ∷ peers) =
    let later = with_peer sck change peers in
    if peer.sck ==ℤ sck
    then some (change peer ∷ peers)
    else elim later [ none ↦ none | some changed ↦ some (peer ∷ changed) ]

abbrev pub with_peer_if : Bool → ℤ → (Peer → Peer) → List Peer → Option (List Peer)
with_peer_if true sck change peers = with_peer sck change peers
with_peer_if false sck change peers = some peers

-- The body of the first loop of `check_peers`. What a peer sends is not looked at.
unfoldable pub check_peer : ℤ → Polled → List Peer → Option (List Peer)
unfolding with_peer
check_peer fd polled peers =
    elim (with_peer_if polled.readable fd (λ peer. if ltb polled.read 1 then mark peer else peer)
      peers) [
        | none ↦ none
        | some read ↦
            with_peer_if polled.writable fd (λ peer. (can_send polled.accepts peer).1) read
      ]

-- The first loop, over the sockets that were polled.
unfoldable pub check_each : List (ℤ × Polled) → List Peer → Option (List Peer)
unfolding check_peer
check_each [] peers = some peers
check_each ((fd, polled) ∷ fds) peers = elim (check_peer fd polled peers) [
  | none ↦ none
  | some next ↦ check_each fds next
]

-- `swapRemove`: the last element takes the place of the one that is removed.
abbrev pub but_last : {A : Type 0} → A → List A → List A
but_last x [] = []
but_last x (y ∷ ys) = x ∷ but_last y ys

abbrev pub last_of : {A : Type 0} → A → List A → A
last_of x [] = x
last_of x (y ∷ ys) = last_of y ys

unfoldable pub refill : {A : Type 0} → List A → List A
refill [] = []
refill (x ∷ xs) = last_of x xs ∷ but_last x xs

abbrev pub swap_remove : {A : Type 0} → ℕ → List A → List A
swap_remove i xs = take i xs ++ refill (drop (suc i) xs)

abbrev pub is_marked : List Peer → Bool
is_marked [] = false
is_marked (peer ∷ _) = peer.delme

-- The second loop, from an index down.
unfoldable pub remove_marked : ℕ → List Peer → List Peer
unfolding refill
remove_marked zero peers = peers
remove_marked (suc jndex) peers = elim (is_marked (drop jndex peers)) [
  | true ↦ remove_marked jndex (swap_remove jndex peers)
  | false ↦ remove_marked jndex peers
]

-- `none` is PeerNotFound.
unfoldable pub check_peers : List (ℤ × Polled) → List Peer → Option (List Peer)
unfolding check_each remove_marked
check_peers fds peers = elim (check_each fds peers) [
  | none ↦ none
  | some next ↦ some (remove_marked (length next) next)
]

-- The sockets of the peers, for `poll`. The array has 32 places, three of which are taken; `none` is an
-- index behind it.
unfoldable pub add_polls : ℕ → List Peer → Option (List ℤ)
add_polls poll_count [] = some []
add_polls poll_count (peer ∷ peers) =
    let later = add_polls (poll_count + 1) peers in
    if ltb poll_count 32
    then elim later [ none ↦ none | some fds ↦ some (peer.sck ∷ fds) ]
    else none

-- The settings that a signal to reload changes.
pub record Config : Type 0 where
  pub id_list : List IdInfo
  pub item_mstime : ℕ
  pub list_mstime : ℕ

-- What happens in a round: a signal to end, one to reload and the settings that can then be read, a
-- connection on a new socket, and what is reported of each socket. A round in which `poll` reports
-- nothing is one without any of these.
pub record Round : Type 0 where
  pub term : Bool
  pub hup : Bool
  pub config : Option Config
  pub connection : Option ℤ
  pub of_peer : ℤ → Polled

abbrev pub report : (ℤ → Polled) → List ℤ → List (ℤ × Polled)
report of_peer [] = []
report of_peer (fd ∷ fds) = (fd, of_peer fd) ∷ report of_peer fds

-- How the loop goes on.
pub data Next : Type 0 where
  again ended reloaded : Next

module _ (L : Line) (P : Parse) where
  -- Where there is no peer, the times and the place are forgotten.
  abbrev pub forgotten : Tty L P → Tty L P
  forgotten info = record info {
    next_modbus_time = none;
    first_modbus_time = none;
    last_modbus_time = none;
    place = beginning;
  }

  unfoldable pub before_poll : Tty L P → Outcome (Tty L P) (Unit {0})
  before_poll info = elim info.peer_list [
    | [] ↦ returned tt (forgotten info)
    | peer ∷ peers ↦ elim (check_modbus L P info) [
      | returned timeout next ↦ returned tt next
      | raised next ↦ raised next
      | crashed ↦ crashed
    ]
  ]

  abbrev pub accept : Option ℤ → List Peer → List Peer
  accept none peers = peers
  accept (some sck) peers = peers ++ (record { sck = sck; delme = false; queue = [] } ∷ [])

  -- The settings are read again, and the times and the place forgotten; if they cannot be read, nothing
  -- changes. The peers stay.
  unfoldable pub reload_config : Option Config → Tty L P → Tty L P
  reload_config none info = info
  reload_config (some new_info) info = record info {
    id_list = new_info.id_list;
    item_mstime = new_info.item_mstime;
    list_mstime = new_info.list_mstime;
    place = beginning;
    next_modbus_time = none;
    first_modbus_time = none;
    last_modbus_time = none;
  }

  -- What follows `poll`. Where a signal to reload came, the loop ends with an error after the settings
  -- are read again.
  unfoldable pub after_poll : Round → List ℤ → Tty L P → Outcome (Tty L P) Next
  unfolding check_peers reload_config
  after_poll round fds info =
      if round.term
      then returned ended info
      else if round.hup
      then returned reloaded (reload_config round.config info)
      else (let peers = accept round.connection info.peer_list in
          elim fds [
            | [] ↦ returned again (record info { peer_list = peers })
            | fd ∷ more ↦ elim (check_peers (report round.of_peer (fd ∷ more)) peers) [
              | none ↦ raised (record info { peer_list = peers })
              | some left ↦ returned again (record info { peer_list = left })
            ]
          ])

  -- A round of `tty_main_loop`.
  unfoldable pub loop_round : Round → Tty L P → Outcome (Tty L P) Next
  unfolding before_poll add_polls after_poll
  loop_round round info = elim (before_poll info) [
    | raised next ↦ raised next
    | crashed ↦ crashed
    | returned _ next ↦ elim (add_polls 3 next.peer_list) [
      | none ↦ crashed
      | some fds ↦ after_poll round fds next
    ]
  ]
