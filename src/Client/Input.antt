-- ===== src/Client/Input.antt =====
-- RRPG/RRPG.cpp: what the player types (`InputHandler` and the functions that it calls).
pub mod Prints
pub mod Turn
pub mod Target
use rrpg.Common.{
  ℕ, ◌+◌, ◌==◌, if◌then◌else◌, Bool, true, false, not, ◌&&◌, ◌||◌, List, [], ◌∷◌, ◌++◌, Option,
  none, some, M, pure, modify, get, ◌>>=◌, ◌>>◌, Chars, codes, chars_eq, to_lower, split_words,
  length, any, map, show_int, ℤ,
}
use rrpg.RakNet.{RakNet, Bits, print}
use rrpg.Protocol.{
  Player, get_string_from_class, wizard, warrior, assassin, heal, heal_rng, attack, atk_rng,
  c_ready, c_unready, c_chat, c_player_list_request, c_player_stats_request, c_job_chosen,
  c_action_taken, gs_character_select, gs_main,
}
use rrpg.Client.{
  Client, NetworkState, ns_lobby, ns_game_started, emit, print_instructions, to_server,
}

-- `input == "..."`, for one of two spellings.
abbrev pub either : Chars → Chars → Chars → Bool
either input a b = chars_eq input a || chars_eq input b

-- `.1` to `.3`, or the name of the class.
unfoldable pub class_of_input : Chars → Option ℕ
class_of_input input =
    if either input (codes ".1") (codes ".wizard")
    then some wizard
    else if either input (codes ".2") (codes ".warrior")
    then some warrior
    else if either input (codes ".3") (codes ".assassin")
    then some assassin
    else none

-- `.1` to `.4`, or the name of the action.
unfoldable pub action_of_word : Chars → Option ℕ
action_of_word word =
    if either word (codes ".1") (codes ".heal")
    then some heal
    else if either word (codes ".2") (codes ".healrng")
    then some heal_rng
    else if either word (codes ".3") (codes ".atk")
    then some attack
    else if either word (codes ".4") (codes ".atkrng")
    then some atk_rng
    else none

-- `ValidPlayer`
abbrev pub valid_player : Chars → Player → Bool
valid_player name player = chars_eq player.name name && not player.dead

-- The name that an action is sent with: "me" stands for the player.
unfoldable pub target_of_word : Client → Chars → Option Chars
target_of_word s word =
    if chars_eq word (codes "me")
    then some s.player.name
    else if any (valid_player word) s.players
    then some word
    else none

module _ (net : RakNet) where
  abbrev pub action_bits : ℕ → Chars → Bits
  action_bits action name =
      net.byte_bits c_action_taken
      ++ (net.byte_bits action ++ net.encode_string name (length name + 1))

  abbrev pub action_message : Option ℕ → Option Chars → Option Bits
  action_message none target = none
  action_message (some action) none = none
  action_message (some action) (some name) = some (action_bits action name)

  abbrev class_message : Option ℕ → Option Bits
  class_message none = none
  class_message (some job) = some (net.byte_bits c_job_chosen ++ net.byte_bits job)

  unfoldable pub action_of_words : Client → List Chars → Option Bits
  action_of_words s [] = none
  action_of_words s (word ∷ []) = none
  action_of_words s (word ∷ (name ∷ words)) =
      action_message (action_of_word word) (target_of_word s name)

  -- What `HandleGameInput` writes, or `none` where it returns false. In another state of the game
  -- the stream stays empty, and is sent.
  unfoldable pub game_message : Client → Chars → Option Bits
  game_message s input =
      if s.game_state == gs_character_select
      then class_message (class_of_input input)
      else if s.game_state == gs_main
      then action_of_words s (split_words input)
      else some []

  abbrev pub send_game_message : Option Bits → M Client Bool
  send_game_message none = pure false
  send_game_message (some bits) = do
    modify (λ s. record s { my_turn = false })
    emit (to_server net (net.to_bytes bits))
    pure true

  unfoldable pub handle_game_input : Chars → M Client Bool
  handle_game_input input = do s ← get; send_game_message (game_message s input)

  unfoldable pub ready : M Client (Unit {0})
  ready = do
    modify (λ s. record s { player = record s.player { ready = true } })
    emit (to_server net (net.to_bytes (net.byte_bits c_ready)))

  unfoldable pub unready : M Client (Unit {0})
  unready = do
    modify (λ s. record s { player = record s.player { ready = false } })
    emit (to_server net (net.to_bytes (net.byte_bits c_unready)))

  unfoldable pub request_players_from_server : M Client (Unit {0})
  request_players_from_server =
      emit (to_server net (net.to_bytes (net.byte_bits c_player_list_request)))

  unfoldable pub request_player_stats_from_server : M Client (Unit {0})
  request_player_stats_from_server =
      emit (to_server net (net.to_bytes (net.byte_bits c_player_stats_request)))

  unfoldable pub handle_lobby_input : Chars → M Client Bool
  handle_lobby_input input =
      if chars_eq input (codes ".ready")
      then (do ready; pure true)
      else if chars_eq input (codes ".notready")
      then (do unready; pure true)
      else if chars_eq input (codes ".players")
      then (do request_players_from_server; pure true)
      else pure false

-- One line of `PrintLocalPlayerStats` and of `OnPlayersStatsReceived`.
abbrev pub stats_line : Chars → ℕ → ℤ → Chars
stats_line name job health =
    name
    ++ (codes " The "
        ++ (get_string_from_class job ++ (codes " has " ++ (show_int health ++ codes " health\n"))))

unfoldable pub print_stats : List Player → M Client (Unit {0})
print_stats [] = pure tt
print_stats (player ∷ players) = do
  emit (print (stats_line player.name player.job player.health))
  print_stats players

unfoldable pub print_local_player_stats : M Client (Unit {0})
unfolding print_stats
print_local_player_stats = do
  emit (print (codes "Local player stats:\n"))
  s ← get
  print_stats s.players

module _ (net : RakNet) where
  -- The end of a round of `InputHandler`: the text goes to the chat, unless it looks like a command.
  unfoldable pub send_chat : Chars → M Client (Unit {0})
  send_chat [] = pure tt
  send_chat (c ∷ cs) =
      if to_lower c == 46
      then (do emit (print (codes "Whoops! Try again!\n")); print_instructions)
      else emit (
          to_server net (
            net.to_bytes
              (net.byte_bits c_chat ++ net.encode_string (c ∷ cs) (length (c ∷ cs) + 1))))

  abbrev pub chat_unless : Chars → Bool → M Client (Unit {0})
  chat_unless input true = pure tt
  chat_unless input false = send_chat input

  unfoldable pub game_round : Chars → Chars → M Client (Unit {0})
  game_round input lower = do
    s ← get
    if chars_eq lower (codes ".stats")
        then request_player_stats_from_server net
        else if chars_eq lower (codes ".localstats")
        then print_local_player_stats
        else if s.my_turn
        then (do handled ← handle_game_input net lower; chat_unless input handled)
        else pure tt

  unfoldable pub round_in : NetworkState → Chars → Chars → M Client (Unit {0})
  round_in ns_lobby input lower = do
    handled ← handle_lobby_input net lower
    chat_unless input handled
  round_in ns_game_started input lower = game_round input lower
  round_in _ input lower = pure tt

  -- A round of `InputHandler`, for a line.
  unfoldable pub handle_input : Chars → M Client (Unit {0})
  handle_input input = do
    s ← get
    if chars_eq (map to_lower input) (codes ".whoami")
        then emit (print (s.player.name ++ codes "\n"))
        else round_in s.network_state input (map to_lower input)
