-- ===== src/Client/Input/Prints.antt =====
-- RRPG/RRPG.cpp: what only prints keeps whatever every print keeps.
use rrpg.Common.{ℕ, List, [], ◌∷◌, Chars, Keeps, Keeps-bind, keeps_rules}
use rrpg.RakNet.{print}
use rrpg.Protocol.{Player}
use rrpg.Client.{
  Client, NetworkState, ns_initialization, ns_create_socket, ns_pending_connection, ns_connected,
  ns_running, ns_lobby, ns_game_started, emit, print_instructions, instructions_in,
  game_instructions,
}
use rrpg.Client.Input.{print_stats, print_local_player_stats}

module _ (P : Client → Type 0) (print-Keeps : (text : Chars) → Keeps P (emit (print text))) where
  instructions-Keeps : (state : NetworkState) (game : ℕ) → Keeps P (instructions_in state game)
  unfolding instructions_in game_instructions
  instructions-Keeps ns_lobby game = search (keeps_rules, print-Keeps)
  instructions-Keeps ns_game_started game = search (keeps_rules, print-Keeps)
  instructions-Keeps ns_initialization game = search keeps_rules
  instructions-Keeps ns_create_socket game = search keeps_rules
  instructions-Keeps ns_pending_connection game = search keeps_rules
  instructions-Keeps ns_connected game = search keeps_rules
  instructions-Keeps ns_running game = search keeps_rules

  pub print_instructions-Keeps : Keeps P print_instructions
  unfolding print_instructions
  print_instructions-Keeps = search (keeps_rules, instructions-Keeps)

  print_stats-Keeps : (players : List Player) → Keeps P (print_stats players)
  unfolding print_stats
  print_stats-Keeps [] = search keeps_rules
  print_stats-Keeps (player ∷ players) =
      Keeps-bind _ _ (print-Keeps _) λ _. print_stats-Keeps players

  pub local_stats-Keeps : Keeps P print_local_player_stats
  unfolding print_local_player_stats
  local_stats-Keeps = search (keeps_rules, print-Keeps, print_stats-Keeps)
