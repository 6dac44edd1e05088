-- ===== src/Server/Handlers/Ready.antt =====
-- RRPG Server/server.cpp: `OnPlayerReady` and when the game starts.
use rrpg.Common.{
  ℕ, ◌<◌, ◌==◌, Bool, true, false, ◌&&◌, List, ◌∷◌, ◌++◌, some, ◌≡◌, ap, M, get, pure,
  if◌then◌else◌, ◌∙◌, ok, ◌>>=◌, length, length-append, codes, arith,
}
use rrpg.RakNet.{RakNet, Packet, send, print, everyone, to}
use rrpg.Protocol.{Player, s_game_started, s_take_turn, gs_character_select}
use rrpg.StdMap
use rrpg.Server.{Server, ns_game_started, expected_players, emit, get_player}
use rrpg.Server.Broadcast.{broadcast_message}
use rrpg.Server.Broadcast.Outcome.{said, said_same, broadcast_message_fits, send_turn_lem}
use rrpg.Server.Game.{first_key, start_game}
use rrpg.Server.Handlers.{sender, all_ready, set_ready, on_player_ready}

-- Everybody of the map is ready, and as many are connected as the game needs.
abbrev pub can_start : Server → Bool
can_start s = all_ready s.players && (s.total_connections == expected_players)

-- The players at the start of the selection of characters.
abbrev pub none_ready : List (ℕ × Player) → List (ℕ × Player)
none_ready = StdMap.for_each (λ player. record player { ready = false })

module _ (net : RakNet) where
  start_game_lem :
      (s : Server) (id address : ℕ) (first : Player) (rest : List (ℕ × Player))
      → none_ready s.players ≡ (id, first) ∷ rest
      → StdMap.lookup id s.player_addresses ≡ some address
      → start_game net s
        ≡ ok (
          tt,
          record s {
            network_state = ns_game_started;
            game_state = gs_character_select;
            players = none_ready s.players;
            current_player_turn = id;
            out =
                send (net.to_bytes (net.byte_bits s_take_turn)) (to address)
                ∷ send (net.to_bytes (net.byte_bits s_game_started)) everyone
                ∷ print (codes "Internal: Game has started.\n")
                ∷ s.out;
          },
        )
  unfolding start_game ◌>>=◌ emit
  start_game_lem s id address first rest begins known =
      rw (begins, first_key, ◌>>=◌) (send_turn_lem net id address _ known)

  -- The state once the sender is set ready and everyone is told so.
  abbrev pub readied : Packet → Server → Player → Server
  readied p s player = said (player.name ++ codes " is ready.") (set_ready true (sender net p) s)

  -- The last part of `OnPlayerReady`.
  abbrev ready_end : M Server (Unit {0})
  ready_end = get >>= λ s. if can_start s then start_game net else pure tt

  module _ (p : Packet) (s : Server) (player : Player)
      (known : StdMap.lookup (sender net p) s.players ≡ some player)
      (short : length player.name < 256) where
    spoken :
        broadcast_message (player.name ++ codes " is ready.") (set_ready true (sender net p) s)
        ≡ ok (tt, readied p s player)
    spoken =
        broadcast_message_fits (player.name ++ codes " is ready.") (set_ready true (sender net p) s)
          (omega (arith, length-append player.name (codes " is ready.")))

    -- A client of the map that says that it is ready is set ready, and everyone is told so. As long as
    -- somebody of the map is not ready or the number of connections is not the number of players
    -- expected, nothing else happens. The name has less than 256 characters.
    pub on_player_ready_waits :
        can_start (set_ready true (sender net p) s) ≡ false
        → on_player_ready net p s ≡ ok (tt, readied p s player)
    unfolding on_player_ready ◌>>=◌ get_player
    on_player_ready_waits wait =
        rw (known, ◌>>=◌, get_player) (rw (spoken, ◌>>=◌) (ground (arith, wait)))

    -- Once everybody of the map is ready, and as many are connected as the game needs, the game
    -- starts: the selection of characters begins with nobody ready, everyone is told so, and the
    -- turn is that of the first player of the map, whose address alone gets `S_TAKE_TURN`. The
    -- sender is a client of the map with a name of less than 256 characters.
    pub on_player_ready_starts :
        (id address : ℕ) (first : Player) (rest : List (ℕ × Player))
        → can_start (set_ready true (sender net p) s) ≡ true
        → none_ready (set_ready true (sender net p) s).players ≡ (id, first) ∷ rest
        → StdMap.lookup id s.player_addresses ≡ some address
        → on_player_ready net p s
          ≡ ok (
            tt,
            record s {
              network_state = ns_game_started;
              game_state = gs_character_select;
              players = none_ready (set_ready true (sender net p) s).players;
              current_player_turn = id;
              out =
                  send (net.to_bytes (net.byte_bits s_take_turn)) (to address)
                  ∷ send (net.to_bytes (net.byte_bits s_game_started)) everyone
                  ∷ print (codes "Internal: Game has started.\n")
                  ∷ (readied p s player).out;
            },
          )
    unfolding on_player_ready ◌>>=◌ get_player
    on_player_ready_starts id address first rest all begins there =
        let ready : Server = set_ready true (sender net p) s in
        rw (known, ◌>>=◌, get_player)
          (rw (spoken, ◌>>=◌)
            (ap ready_end (said_same (player.name ++ codes " is ready.") ready)
              ∙ rw all (
                  start_game_lem (record ready { out = (readied p s player).out }) id address first
                    rest begins there)))
