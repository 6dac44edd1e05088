-- ===== src/Server/Game.antt =====
-- RRPG Server/server.cpp: `StartGame` and `StartMainGame`, and the streams that list the players.
use rrpg.Common.{
  ℕ, false, List, [], ◌∷◌, ◌++◌, M, pure, modify, get, raise, invalid_iterator, ◌>>=◌, ◌>>◌, codes,
  length, pos,
}
use rrpg.RakNet.{RakNet, Bits, send, print, everyone}
use rrpg.Protocol.{
  Player, s_game_started, s_update_game_state, s_reply_player_list_request,
  s_reply_player_stats_request, gs_character_select, gs_main,
}
use rrpg.StdMap
use rrpg.Server.{Server, ns_game_started, emit}
use rrpg.Server.Broadcast.{send_turn}
use rrpg.Server.Turn.{next_turn}

-- `players.begin()->first`, which needs an entry.
abbrev pub first_key : List (ℕ × Player) → M Server ℕ
first_key [] = raise invalid_iterator
first_key ((id, player) ∷ rest) = pure id

module _ (net : RakNet) where
  unfoldable pub start_game : M Server (Unit {0})
  start_game = do
    emit (print (codes "Internal: Game has started.\n"))
    modify (λ s. record s { network_state = ns_game_started; game_state = gs_character_select })
    emit (send (net.to_bytes (net.byte_bits s_game_started)) everyone)
    modify (λ s. record s {
      players = StdMap.for_each (λ player. record player { ready = false }) s.players;
    })
    s ← get
    id ← first_key s.players
    modify (λ s. record s { current_player_turn = id })
    send_turn net id

  -- The loops of `StartMainGame`, `OnPlayerListRequest` and `OnPlayerStatsRequest`.
  unfoldable pub main_game_entries : List (ℕ × Player) → Bits
  main_game_entries [] = []
  main_game_entries ((id, player) ∷ players) =
      net.encode_string player.name 256
      ++ (net.int_bits player.health
          ++ (net.bool_bits player.ready
              ++ (net.byte_bits player.job ++ main_game_entries players)))

  unfoldable pub list_entries : List (ℕ × Player) → Bits
  list_entries [] = []
  list_entries ((id, player) ∷ players) =
      net.encode_string player.name 256 ++ (net.bool_bits player.ready ++ list_entries players)

  unfoldable pub stats_entries : List (ℕ × Player) → Bits
  stats_entries [] = []
  stats_entries ((id, player) ∷ players) =
      net.encode_string player.name 256
      ++ (net.byte_bits player.job ++ (net.int_bits player.health ++ stats_entries players))

  unfoldable pub main_game_packet : List (ℕ × Player) → List ℕ
  main_game_packet players = net.to_bytes (
      net.byte_bits s_update_game_state
      ++ (net.byte_bits gs_main
          ++ (net.int_bits (pos (length players)) ++ main_game_entries players)))

  unfoldable pub list_packet : List (ℕ × Player) → List ℕ
  list_packet players = net.to_bytes (
      net.byte_bits s_reply_player_list_request
      ++ (net.int_bits (pos (length players)) ++ list_entries players))

  unfoldable pub stats_packet : List (ℕ × Player) → List ℕ
  stats_packet players = net.to_bytes (
      net.byte_bits s_reply_player_stats_request
      ++ (net.int_bits (pos (length players)) ++ stats_entries players))

  unfoldable pub start_main_game : M Server (Unit {0})
  start_main_game = do
    modify (λ s. record s { game_state = gs_main })
    s ← get
    emit (send (main_game_packet s.players) everyone)
    next_turn net
