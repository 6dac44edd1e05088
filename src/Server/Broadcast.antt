-- ===== src/Server/Broadcast.antt =====
-- RRPG Server/server.cpp: `BroadcastMessage`, `ModifyHealth` and the messages that are sent to all.
pub mod Outcome
use rrpg.Common.{
  ℕ, ◌+◌, ◌==◌, leb, if◌then◌else◌, List, [], ◌∷◌, ◌++◌, M, pure, modify, guard, out_of_bounds,
  int_overflow, ◌>>=◌, ◌>>◌, Chars, codes, length, ℤ, ◌+ℤ◌, fits_int32, is_positive, show_int, true,
}
use rrpg.RakNet.{RakNet, send, print, everyone, to}
use rrpg.Protocol.{Player, s_update_player_hp, s_take_turn}
use rrpg.StdMap
use rrpg.Server.{Server, emit, get_player, get_address_from_id}

-- The bytes of a text with its terminator, as `Send(message, strlen(message) + 1, ...)` takes them.
abbrev pub text_bytes : Chars → List ℕ
text_bytes text = text ++ 0 ∷ []

abbrev pub server_prefix : Chars
server_prefix = codes "[Server] "

-- The buffer has 2048 bytes beside the prefix.
unfoldable pub broadcast_message : Chars → M Server (Unit {0})
broadcast_message input = if length input == 0 then pure tt else (do
  guard (leb (length server_prefix + (length input + 1)) (2048 + length server_prefix))
      out_of_bounds
  emit (print (codes "Broadcast: " ++ (server_prefix ++ (input ++ codes "\n"))))
  emit (send (text_bytes (server_prefix ++ input)) everyone))

-- `player.health += diff`, and `dead` once the health is not positive.
abbrev pub add_health : ℤ → Player → Player
add_health diff player =
    let health = player.health +ℤ diff in
    if is_positive health
    then record player { health = health }
    else record player { health = health; dead = true }

abbrev pub health_line : Player → Chars
health_line player =
    if is_positive player.health
    then codes "Internal: "
      ++ (player.name ++ (codes " is now at " ++ (show_int player.health ++ codes " health\n")))
    else codes "Internal: " ++ (player.name ++ codes " is dead\n")

module _ (net : RakNet) where
  -- `S_TAKE_TURN`, to one player
  unfoldable pub send_turn : ℕ → M Server (Unit {0})
  send_turn id = do
    address ← get_address_from_id id
    emit (send (net.to_bytes (net.byte_bits s_take_turn)) (to address))

  abbrev pub health_packet : Player → List ℕ
  health_packet player = net.to_bytes (
      net.byte_bits s_update_player_hp
      ++ (net.encode_string player.name (length player.name + 1) ++ net.int_bits player.health))

  -- The reference to the player is its key.
  unfoldable pub modify_health : ℕ → ℤ → M Server (Unit {0})
  modify_health id diff = do
    player ← get_player id
    guard (fits_int32 (player.health +ℤ diff)) int_overflow
    modify (λ s. record s { players = StdMap.adjust id (add_health diff) s.players })
    emit (print (health_line (add_health diff player)))
    emit (send (health_packet (add_health diff player)) everyone)
