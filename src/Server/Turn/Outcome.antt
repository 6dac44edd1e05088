-- ===== src/Server/Turn/Outcome.antt =====
-- RRPG Server/server.cpp: what `NextTurn` does to the server.
use rrpg.Common.{
  List, ℕ, ◌==◌, false, ◌∷◌, ◌++◌, some, ◌≡◌, ap, ◌∙◌, ◌≢◌, ok, ◌>>=◌, Chars, codes, snprintf,
  arith, ==_iff,
}
use rrpg.RakNet.{Effect, RakNet, send, everyone, to}
use rrpg.Protocol.{Player, s_take_turn, s_update_game_state, gs_game_over}
use rrpg.StdMap
use rrpg.StdMap.Order.{IsSorted}
use rrpg.Server.{Server, emit, get_player}
use rrpg.Server.Broadcast.Outcome.{said, broadcast-snprintf, said-player_addresses, send_turn_lem}
use rrpg.Server.Turn.{choose_next, found_or_hang, alive_count, lift, next_turn, game_over}
use rrpg.Server.Turn.Order.{first_alive, circle, choose_next-circle}
use rrpg.Server.Turn.Found.{first_alive-circle_alive, lookup-Has}

abbrev pub turn_message : Player → Chars
turn_message player = snprintf 256 (player.name ++ codes "'s turn")

abbrev pub win_message : Player → Chars
win_message player = snprintf 256 (player.name ++ codes " wins!")

-- The last thing that the server has sent is `S_TAKE_TURN`, to the player whose turn it is.
abbrev pub Asks : RakNet → Server → Type 0
Asks net s =
    (address : ℕ) × (before : List Effect) × (StdMap.lookup s.current_player_turn s.player_addresses
      ≡ some address)
    × (s.out ≡ send (net.to_bytes (net.byte_bits s_take_turn)) (to address) ∷ before)

module _ (net : RakNet) where
  -- The state after the turn has passed to a player.
  abbrev pub passed : ℕ → Player → ℕ → Server → Server
  passed id player address s =
      let t = said (turn_message player) (record s { current_player_turn = id }) in
      record t { out = send (net.to_bytes (net.byte_bits s_take_turn)) (to address) ∷ t.out }

  -- The state after the game was won.
  abbrev pub won : ℕ → Player → Server → Server
  won id player s =
      let t =
        said (win_message player)
          (record s { current_player_turn = id; game_state = gs_game_over }) in
      record t {
        out =
            send (net.to_bytes (net.byte_bits s_update_game_state ++ net.byte_bits gs_game_over))
              everyone
            ∷ t.out;
      }

  game_over_lem :
      (id : ℕ) (player : Player) (s : Server)
      → StdMap.lookup id s.players ≡ some player
      → game_over net id (record s { current_player_turn = id }) ≡ ok (tt, won id player s)
  unfolding game_over ◌>>=◌ emit get_player
  game_over_lem id player s found =
      rw (found, game_over, ◌>>=◌, get_player)
        (rw (
          broadcast-snprintf (player.name ++ codes " wins!")
              (record s { current_player_turn = id; game_state = gs_game_over }),
          ◌>>=◌,
        ))

  module _ (s : Server) (current next : Player) (id : ℕ)
      (in_turn : StdMap.lookup s.current_player_turn s.players ≡ some current)
      (sorted : IsSorted s.players)
      (is_next : first_alive (circle s.current_player_turn s.players) ≡ some (id, next)) where
    chosen : choose_next s.current_player_turn s.players ≡ ok (id, next)
    chosen =
        choose_next-circle s.current_player_turn s.players current in_turn
        ∙ ap found_or_hang is_next

    chosen_found : StdMap.lookup id s.players ≡ some next
    chosen_found =
        lookup-Has id next s.players sorted
          (first_alive-circle_alive s.current_player_turn s.players (id, next) is_next).0

    one_test : alive_count s.players ≢ 1 → (alive_count s.players == 1) ≡ false
    one_test several = ground arith

    -- If the player whose turn it is has an entry, the number of players alive is not 1, and the
    -- first player alive along the circle behind the one whose turn it is has an address, then
    -- `NextTurn` makes it that player's turn, says so to everyone and sends `S_TAKE_TURN` to that
    -- player's address alone. The map's keys ascend.
    pub next_turn-passed :
        (address : ℕ)
        → alive_count s.players ≢ 1
        → StdMap.lookup id s.player_addresses ≡ some address
        → next_turn net s ≡ ok (tt, passed id next address s)
    unfolding next_turn ◌>>=◌ lift
    next_turn-passed address several known =
        rw (chosen, ◌>>=◌)
          (rw
            (
              one_test several,
              broadcast-snprintf (next.name ++ codes "'s turn")
                  (record s { current_player_turn = id }),
              ◌>>=◌,
            )
            (send_turn_lem net id address
              (said (turn_message next) (record s { current_player_turn = id }))
              (ap (StdMap.lookup id) (
                  said-player_addresses (turn_message next) (record s { current_player_turn = id }))
                ∙ known)))

    -- If the player whose turn it is has an entry and exactly one player is alive, then `NextTurn`
    -- declares that player the winner: the game is over on the server, and everyone is told so, by
    -- a message and by a packet. Nobody is asked to take a turn. The map's keys ascend.
    pub next_turn-won : alive_count s.players ≡ 1 → next_turn net s ≡ ok (tt, won id next s)
    unfolding next_turn ◌>>=◌ lift
    next_turn-won single =
        rw (chosen, ◌>>=◌)
          (rw ((==_iff (alive_count s.players) 1).1 single) (game_over_lem id next s chosen_found))
