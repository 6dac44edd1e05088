-- ===== src/Server/Handlers.antt =====
-- RRPG Server/server.cpp: the handlers of the clients' packets.
pub mod Intro
pub mod Chat
pub mod Ready
use rrpg.Common.{
  ℕ, ◌+◌, ◌%◌, ◌==◌, ltb, leb, if◌then◌else◌, Bool, true, false, not, ◌&&◌, List, [], ◌∷◌, ◌++◌,
  Option, none, some, M, pure, modify, get, raise, guard, invalid_iterator, out_of_bounds,
  assertion, uninitialized, ◌>>=◌, ◌>>◌, Chars, codes, chars_eq, length, snprintf, all, ℤ, pos,
  negsuc, ◌-ℤ◌, neg, show_int,
}
use rrpg.RakNet.{RakNet, Bits, Packet, send, print, close_connection, everyone, to}
use rrpg.Protocol.{
  Player, new_player, get_string_from_class, wizard, warrior, assassin, heal, heal_rng, attack,
  atk_rng,
}
use rrpg.StdMap
use rrpg.Server.{
  Server, expected_players, emit, get_player, get_address_from_id, get_random_integer,
}
use rrpg.Server.Broadcast.{text_bytes, broadcast_message, send_turn, modify_health}
use rrpg.Server.Turn.{next_turn}
use rrpg.Server.Game.{start_game, start_main_game, list_packet, stats_packet}

-- `totalConnections` is an unsigned short.
abbrev pub u16 : ℕ → ℕ
u16 n = n % 65536

abbrev pub decrement_connections : Server → Server
decrement_connections s = record s { total_connections = u16 (s.total_connections + 65535) }

unfoldable pub on_incoming_connection : M Server (Unit {0})
on_incoming_connection =
    modify (λ s. record s { total_connections = u16 (s.total_connections + 1) })

-- `EXPECTED_PLAYERS - totalConnections` is an unsigned difference that `%i` prints as an int.
unfoldable pub waiting_message : ℕ → Chars
waiting_message total =
    codes "Waiting for "
    ++ (show_int (pos expected_players -ℤ pos total)
        ++ (codes " more player"
            ++ ((if total + 1 == expected_players then codes "." else codes "s.") ++ codes "..")))

-- `GetPlayerWithName`: the key of the first player of that name.
unfoldable pub get_player_with_name : Chars → List (ℕ × Player) → Option ℕ
get_player_with_name name [] = none
get_player_with_name name ((id, player) ∷ players) =
    if chars_eq player.name name then some id else get_player_with_name name players

abbrev pub all_ready : List (ℕ × Player) → Bool
all_ready = all (λ entry. entry.1.ready)

abbrev pub set_ready : Bool → ℕ → Server → Server
set_ready ready id s = record s {
  players = StdMap.adjust id (λ player. record player { ready = ready }) s.players;
}

module _ (net : RakNet) where
  -- The stream over a packet's data, behind its identifier.
  abbrev pub payload : Packet → Bits
  payload p = net.ignore_bits 8 (net.from_bytes p.bytes)

  abbrev pub sender : Packet → ℕ
  sender p = net.to_uint32 p.guid

  -- The first part of `OnClientIntro`, with no return behind it.
  unfoldable pub reject_surplus : Packet → M Server (Unit {0})
  reject_surplus p = do
    s ← get
    if ltb expected_players s.total_connections
        then (do emit (close_connection p.system_address); modify decrement_connections)
        else pure tt

  unfoldable pub announce_waiting : M Server (Unit {0})
  announce_waiting = do
    s ← get
    if s.total_connections == expected_players
        then pure tt
        else broadcast_message (snprintf 40 (waiting_message s.total_connections))

  -- " has joined." is copied behind the name, into a block of 256 bytes.
  unfoldable pub on_client_intro : Packet → M Server (Unit {0})
  on_client_intro p = do
    reject_surplus p
    modify (λ s. record s {
      player_addresses = StdMap.emplace (sender p) p.system_address s.player_addresses;
    })
    let (name, _) = net.decode_string 256 (payload p)
    modify (λ s. record s { players = StdMap.emplace (sender p) (new_player name) s.players })
    guard (leb (length name + 13) 256) out_of_bounds
    broadcast_message (name ++ codes " has joined.")
    announce_waiting

  -- The message has 2048 bytes beside the name.
  unfoldable pub on_client_chat_received : Packet → M Server (Unit {0})
  on_client_chat_received p = do
    player ← get_player (sender p)
    let (cmsg, _) = net.decode_string 2048 (payload p)
    guard (leb (length player.name + 2 + (length cmsg + 1)) (2048 + length player.name))
        out_of_bounds
    let message = player.name ++ (codes ": " ++ cmsg)
    emit (print (message ++ codes "\n"))
    emit (send (text_bytes message) everyone)

  unfoldable pub on_player_ready : Packet → M Server (Unit {0})
  on_player_ready p = do
    player ← get_player (sender p)
    modify (set_ready true (sender p))
    broadcast_message (player.name ++ codes " is ready.")
    s ← get
    if all_ready s.players && (s.total_connections == expected_players)
        then start_game net
        else pure tt

  unfoldable pub on_player_unready : Packet → M Server (Unit {0})
  on_player_unready p = do
    player ← get_player (sender p)
    modify (set_ready false (sender p))
    broadcast_message (player.name ++ codes " is not ready.")

  unfoldable pub on_player_list_request : Packet → M Server (Unit {0})
  on_player_list_request p = do
    s ← get
    emit (send (list_packet net s.players) (to p.system_address))

  unfoldable pub on_player_stats_request : Packet → M Server (Unit {0})
  on_player_stats_request p = do
    s ← get
    emit (send (stats_packet net s.players) (to p.system_address))
