-- ===== src/Client/Dispatch.antt =====
-- RRPG/RRPG.cpp: the loops of the client's threads, one round at a time: `PacketHandler` for a
-- packet and `GameLoop`; `Start` up to its loop.
pub mod Port
pub mod Main
use rrpg.Common.{
  ℕ, zero, suc, ◌+◌, ◌%◌, ◌==◌, if◌then◌else◌, Bool, true, false, ◌++◌, Option, none, some, M, pure,
  modify, get, raise, guard, Result, ok, fault, assertion, out_of_bounds, hang, ◌>>=◌, ◌>>◌, Chars,
  codes, c_string, show_int, int_of_u32, pos,
}
use rrpg.RakNet.{RakNet, Packet, print, startup, set_occasional_ping, connect}
use rrpg.RakNet.MessageIds.{
  id_connected_ping, id_unconnected_ping, id_connection_request_accepted,
  id_connection_attempt_failed, id_already_connected, id_no_free_incoming_connections,
  id_disconnection_notification, id_connection_lost, id_connection_banned, id_invalid_password,
  id_incompatible_protocol_version,
}
use rrpg.Protocol.{
  get_packet_identifier, s_reply_player_list_request, s_reply_player_stats_request, s_game_started,
  s_take_turn, s_update_game_state, s_update_player_hp,
}
use rrpg.Client.{Client, NetworkState, ns_create_socket, ns_pending_connection, construct, emit}
use rrpg.Client.Input.{handle_input}
use rrpg.Client.Packets.{
  on_connection_accepted, on_players_list_received, on_players_stats_received, on_game_start,
  on_take_turn, on_game_state_update, on_players_health_updated,
}

unfoldable pub lift : {A : Type 0} → Result A → M Client A
lift r s = elim r [ fault e ↦ fault e | ok a ↦ ok (a, s) ]

abbrev log : Chars → M Client Bool
log line = do emit (print line); pure true

-- The default of the `switch`: the data is printed as a C string.
abbrev pub print_data : Option Chars → M Client (Unit {0})
print_data none = raise out_of_bounds
print_data (some text) = emit (print (text ++ codes "\n"))

module _ (net : RakNet) where
  -- The `switch` of `IsLowLevelPacketHandled`.
  unfoldable pub low_level : ℕ → Packet → M Client Bool
  low_level id p =
      if id == id_disconnection_notification
      then log (codes "ID_DISCONNECTION_NOTIFICATION\n")
      else if id == id_already_connected
      then log (codes "ID_ALREADY_CONNECTED with guid " ++ (show_int (pos p.guid) ++ codes "\n"))
      else if id == id_incompatible_protocol_version
      then log (codes "ID_INCOMPATIBLE_PROTOCOL_VERSION\n")
      else if id == id_connection_banned
      then log (codes "We are banned from this server.\n")
      else if id == id_connection_attempt_failed
      then log (codes "Connection attempt failed\n")
      else if id == id_no_free_incoming_connections
      then log (codes "Server is full.\n")
      else if id == id_invalid_password
      then log (codes "ID_INVALID_PASSWORD\n")
      else if id == id_connection_lost
      then log (codes "ID_CONNECTION_LOST\n")
      else if id == id_connection_request_accepted
      then (do on_connection_accepted net p; pure true)
      else if id == id_connected_ping
      then log (codes "Ping from " ++ (net.address_text p.system_address ++ codes "\n"))
      else if id == id_unconnected_ping
      then log (codes "Ping from " ++ (net.address_text p.system_address ++ codes "\n"))
      else pure false

  unfoldable pub is_low_level_packet_handled : Packet → M Client Bool
  is_low_level_packet_handled p = do id ← lift (get_packet_identifier p); low_level id p

  -- The `switch` of `PacketHandler`.
  unfoldable pub server_packet : ℕ → Packet → M Client (Unit {0})
  server_packet id p =
      if id == s_reply_player_list_request
      then on_players_list_received net p
      else if id == s_reply_player_stats_request
      then on_players_stats_received net p
      else if id == s_game_started
      then on_game_start
      else if id == s_take_turn
      then on_take_turn
      else if id == s_update_game_state
      then on_game_state_update net p
      else if id == s_update_player_hp
      then on_players_health_updated net p
      else print_data (c_string p.bytes)

  -- `PacketHandler`, for one packet.
  unfoldable pub handle_packet : Packet → M Client (Unit {0})
  handle_packet p = do
    handled ← is_low_level_packet_handled p
    if handled then pure tt else (do id ← lift (get_packet_identifier p); server_packet id p)

  -- `while (IsPortInUse(port, ...)) port++;` on an unsigned short
  unfoldable pub first_free_port : ℕ → ℕ → Option ℕ
  first_free_port zero port = none
  first_free_port (suc fuel) port = elim (net.is_port_in_use port) [
    | true ↦ first_free_port fuel ((port + 1) % 65536)
    | false ↦ some port
  ]

abbrev pub free_or_hang : Option ℕ → M Client ℕ
free_or_hang none = raise hang
free_or_hang (some port) = pure port

module _ (net : RakNet) (fuel : ℕ) where
  unfoldable pub open_socket : NetworkState → M Client (Unit {0})
  open_socket ns_create_socket = do
    s ← get
    port ← free_or_hang (first_free_port net fuel (s.client_port % 65536))
    emit (startup 8 port)
    guard (net.startup_succeeds port) assertion
    emit set_occasional_ping
    emit (connect s.server_address (s.server_port % 65536))
    guard (net.connect_succeeds s.server_address (s.server_port % 65536)) assertion
    emit (
        print (
          codes "Client attempting connection to "
          ++ (s.server_address
              ++ (codes ":"
                  ++ (show_int (int_of_u32 s.server_port) ++ codes ".. awaiting response\n")))))
    modify (λ t. record t { network_state = ns_pending_connection })
  open_socket _ = pure tt

  unfoldable pub game_loop : M Client (Unit {0})
  game_loop = do s ← get; open_socket s.network_state

-- `Start`, up to its loop, for what is typed in.
unfoldable pub start : Chars → ℕ → ℕ → Chars → M Client (Unit {0})
start name client_port server_port address = do
  emit (
      print (
        codes
          "RRPG Client\nEnter name: Enter listening port: Enter server port: Enter IP to connect to: "))
  modify (λ s. record s {
    player = record s.player { name = name };
    client_port = client_port;
    server_port = server_port;
    server_address = address;
    network_state = ns_create_socket;
  })

-- `RRPG::Get`, given what the static pointer holds and the memory of a new object.
abbrev pub get_instance : Option Client → Client → Client
get_instance none memory = construct memory
get_instance (some client) memory = client

-- `main`, up to the loop of `Start`.
unfoldable pub main : Chars → ℕ → ℕ → Chars → Client → Result (Unit {0} × Client)
main name client_port server_port address memory =
    start name client_port server_port address (get_instance none memory)

-- What the client's threads do, in some order.
pub data Event : Type 0 where
  receive : Packet → Event
  typed : Chars → Event
  tick : Event

module _ (net : RakNet) (fuel : ℕ) where
  unfoldable pub handle : Event → M Client (Unit {0})
  handle (receive p) = handle_packet net p
  handle (typed line) = handle_input net line
  handle tick = game_loop net fuel
