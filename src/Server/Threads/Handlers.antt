-- ===== src/Server/Threads/Handlers.antt =====
-- RRPG Server/server.cpp: the handlers of the packet thread beside the input thread.
use rrpg.Common.{ℕ, List, [], ◌∷◌, Option, none, some, ℤ}
use rrpg.RakNet.{RakNet, Packet}
use rrpg.Protocol.{Player}
use rrpg.Server.Broadcast.{send_turn, modify_health}
use rrpg.Server.Turn.{next_turn, game_over}
use rrpg.Server.Game.{start_game, start_main_game}
use rrpg.Server.Handlers.{
  on_incoming_connection, reject_surplus, announce_waiting, on_client_intro,
  on_client_chat_received, on_player_ready, on_player_unready, on_player_list_request,
  on_player_stats_request,
}
use rrpg.Server.Actions.{pass_choice, on_player_job_chosen, perform, on_player_action_taken}
use rrpg.Server.Dispatch.{low_level, is_low_level_packet_handled, client_packet, handle_packet}
use rrpg.Server.Threads.{
  Writes, writes_rules, Writes-modify, emit-Writes, get_player-Writes, get_address-Writes,
  get_random-Writes, lift-Writes, first_key-Writes, successor-Writes, or_assert-Writes,
  print_data-Writes, broadcast-Writes,
}

ruleset part_rules = (
  writes_rules, Writes-modify, emit-Writes, get_player-Writes, get_address-Writes,
  get_random-Writes, lift-Writes, broadcast-Writes,
)

module _ (net : RakNet) where
  send_turn-Writes : (id : ℕ) → Writes (send_turn net id)
  unfolding send_turn
  send_turn-Writes id = search part_rules

  modify_health-Writes : (id : ℕ) (diff : ℤ) → Writes (modify_health net id diff)
  unfolding modify_health
  modify_health-Writes id diff = search part_rules depth 12

  game_over-Writes : (id : ℕ) → Writes (game_over net id)
  unfolding game_over
  game_over-Writes id = search part_rules depth 12

  next_turn-Writes : Writes (next_turn net)
  unfolding next_turn
  next_turn-Writes = search (part_rules, game_over-Writes, send_turn-Writes) depth 12

  start_game-Writes : Writes (start_game net)
  unfolding start_game
  start_game-Writes = search (part_rules, first_key-Writes, send_turn-Writes) depth 20

  start_main_game-Writes : Writes (start_main_game net)
  unfolding start_main_game
  start_main_game-Writes = search (part_rules, next_turn-Writes) depth 16

  reject_surplus-Writes : (p : Packet) → Writes (reject_surplus net p)
  unfolding reject_surplus
  reject_surplus-Writes p = search part_rules depth 12

  announce_waiting-Writes : Writes (announce_waiting net)
  unfolding announce_waiting
  announce_waiting-Writes = search part_rules depth 12

  intro-Writes : (p : Packet) → Writes (on_client_intro net p)
  unfolding on_client_intro
  intro-Writes p = search (part_rules, reject_surplus-Writes, announce_waiting-Writes) depth 20

  chat-Writes : (p : Packet) → Writes (on_client_chat_received net p)
  unfolding on_client_chat_received
  chat-Writes p = search part_rules depth 12

  ready-Writes : (p : Packet) → Writes (on_player_ready net p)
  unfolding on_player_ready
  ready-Writes p = search (part_rules, start_game-Writes) depth 14

  unready-Writes : (p : Packet) → Writes (on_player_unready net p)
  unfolding on_player_unready
  unready-Writes p = search part_rules depth 12

  list-Writes : (p : Packet) → Writes (on_player_list_request net p)
  unfolding on_player_list_request
  list-Writes p = search part_rules depth 12

  stats-Writes : (p : Packet) → Writes (on_player_stats_request net p)
  unfolding on_player_stats_request
  stats-Writes p = search part_rules depth 12

  pass_choice-Writes : (rest : List (ℕ × Player)) → Writes (pass_choice net rest)
  unfolding pass_choice
  pass_choice-Writes [] = start_main_game-Writes
  pass_choice-Writes ((id, player) ∷ rest) = search (part_rules, send_turn-Writes) depth 12

  job_chosen-Writes : (p : Packet) → Writes (on_player_job_chosen net p)
  unfolding on_player_job_chosen
  job_chosen-Writes p = search (part_rules, successor-Writes, pass_choice-Writes) depth 16

  perform-Writes :
      (action : Option ℕ) (origin : Player) (id : ℕ) (target : Player)
      → Writes (perform net action origin id target)
  unfolding perform
  perform-Writes none origin id target = search part_rules
  perform-Writes (some action) origin id target = search (part_rules, modify_health-Writes) depth 14

  action_taken-Writes : (p : Packet) → Writes (on_player_action_taken net p)
  unfolding on_player_action_taken
  action_taken-Writes p =
      search (part_rules, or_assert-Writes, perform-Writes, next_turn-Writes) depth 16

  incoming-Writes : Writes on_incoming_connection
  unfolding on_incoming_connection
  incoming-Writes = search part_rules

  low_level-Writes : (id : ℕ) (p : Packet) → Writes (low_level net id p)
  unfolding low_level
  low_level-Writes id p = search (part_rules, incoming-Writes) depth 24

  handled-Writes : (p : Packet) → Writes (is_low_level_packet_handled net p)
  unfolding is_low_level_packet_handled
  handled-Writes p = search (part_rules, low_level-Writes)

  client_packet-Writes : (id : ℕ) (p : Packet) → Writes (client_packet net id p)
  unfolding client_packet
  client_packet-Writes id p =
      search
        (
          writes_rules, intro-Writes, chat-Writes, ready-Writes, unready-Writes, list-Writes,
          stats-Writes, job_chosen-Writes, action_taken-Writes, print_data-Writes,
        )
        depth 12

  pub handle_packet-Writes : (p : Packet) → Writes (handle_packet net p)
  unfolding handle_packet
  handle_packet-Writes p = search (part_rules, handled-Writes, client_packet-Writes) depth 10
