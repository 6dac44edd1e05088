-- ===== src/Server/Dispatch.antt =====
-- RRPG Server/server.cpp: the loops of the three threads, one round at a time: `PacketHandler` for
-- a packet, `InputHandler` for a line of input, and `GameLoop`.
pub mod Port
pub mod Main
pub mod Run
use rrpg.Common.{
  ℕ, zero, suc, ◌+◌, ◌%◌, ◌^◌, ◌==◌, leb, if◌then◌else◌, Bool, true, false, List, [], ◌∷◌, ◌++◌,
  Option, none, some, M, pure, modify, get, raise, guard, Result, ok, fault, assertion,
  out_of_bounds, hang, ◌>>=◌, ◌>>◌, Chars, codes, c_string, take, length, show_int, int_of_u32, pos,
}
use rrpg.RakNet.{RakNet, Packet, print, startup, set_maximum_incoming_connections}
use rrpg.RakNet.MessageIds.{
  id_connected_ping, id_unconnected_ping, id_connection_attempt_failed, id_already_connected,
  id_new_incoming_connection, id_disconnection_notification, id_connection_lost,
  id_incompatible_protocol_version, id_remote_disconnection_notification, id_remote_connection_lost,
  id_remote_new_incoming_connection,
}
use rrpg.Protocol.{
  get_packet_identifier, c_intro, c_ready, c_unready, c_player_list_request, c_player_stats_request,
  c_chat, c_job_chosen, c_action_taken,
}
use rrpg.Server.{
  Server, NetworkState, ns_initialization, ns_create_socket, ns_lobby, ns_game_started,
  expected_players, construct, emit, is_running,
}
use rrpg.Server.Broadcast.{broadcast_message}
use rrpg.Server.Turn.{lift}
use rrpg.Server.Handlers.{
  u16, decrement_connections, on_incoming_connection, on_client_intro, on_client_chat_received,
  on_player_ready, on_player_unready, on_player_list_request, on_player_stats_request,
}
use rrpg.Server.Actions.{on_player_job_chosen, on_player_action_taken}

abbrev pub log_then : Chars → M Server (Unit {0}) → M Server Bool
log_then line m = do emit (print line); m; pure true

abbrev pub log : Chars → M Server Bool
log line = log_then line (pure tt)

abbrev pub print_data : Option Chars → M Server (Unit {0})
print_data none = raise out_of_bounds
print_data (some text) = emit (print (codes "client packet with no ID: " ++ (text ++ codes "\n")))

module _ (net : RakNet) where
  -- The `switch` of `IsLowLevelPacketHandled`.
  unfoldable pub low_level : ℕ → Packet → M Server Bool
  low_level id p =
      if id == id_disconnection_notification
      then log (codes "ID_DISCONNECTION_NOTIFICATION\n")
      else if id == id_already_connected
      then log (codes "ID_ALREADY_CONNECTED")
      else if id == id_incompatible_protocol_version
      then log (codes "ID_INCOMPATIBLE_PROTOCOL_VERSION\n")
      else if id == id_remote_disconnection_notification
      then log_then (codes "ID_REMOTE_DISCONNECTION_NOTIFICATION\n") (modify decrement_connections)
      else if id == id_remote_connection_lost
      then log_then (codes "ID_REMOTE_CONNECTION_LOST\n") (modify decrement_connections)
      else if id == id_new_incoming_connection
      then log_then (codes "ID_REMOTE_NEW_INCOMING_CONNECTION\n") on_incoming_connection
      else if id == id_remote_new_incoming_connection
      then log_then (codes "ID_REMOTE_NEW_INCOMING_CONNECTION\n") on_incoming_connection
      else if id == id_connection_attempt_failed
      then log (codes "Connection attempt failed\n")
      else if id == id_connection_lost
      then log (codes "ID_CONNECTION_LOST\n")
      else if id == id_connected_ping
      then log (codes "Ping from " ++ (net.address_text p.system_address ++ codes "\n"))
      else if id == id_unconnected_ping
      then log (codes "Ping from " ++ (net.address_text p.system_address ++ codes "\n"))
      else pure false

  unfoldable pub is_low_level_packet_handled : Packet → M Server Bool
  is_low_level_packet_handled p = do id ← lift (get_packet_identifier p); low_level id p

  -- The `switch` of `PacketHandler`.
  unfoldable pub client_packet : ℕ → Packet → M Server (Unit {0})
  client_packet id p =
      if id == c_intro
      then on_client_intro net p
      else if id == c_ready
      then on_player_ready net p
      else if id == c_unready
      then on_player_unready net p
      else if id == c_player_list_request
      then on_player_list_request net p
      else if id == c_player_stats_request
      then on_player_stats_request net p
      else if id == c_chat
      then on_client_chat_received net p
      else if id == c_job_chosen
      then on_player_job_chosen net p
      else if id == c_action_taken
      then on_player_action_taken net p
      else print_data (c_string p.bytes)

  -- `PacketHandler`, for one packet.
  unfoldable pub handle_packet : Packet → M Server (Unit {0})
  handle_packet p = do
    handled ← is_low_level_packet_handled p
    if handled then pure tt else (do id ← lift (get_packet_identifier p); client_packet id p)

-- `input == ".quit"` compares the address of the array `input` with that of a literal, two objects.
abbrev pub is_quit_command : Chars → Bool
is_quit_command input = false

-- `std::cin.getline(input, 2048)`: a longer line leaves the stream failed, and a failed stream
-- gives empty strings.
unfoldable pub handle_input : Chars → M Server (Unit {0})
handle_input line = do
  s ← get
  let input = if s.input_good then take 2047 line else []
  modify (λ s. record s { input_good = if leb (length line) 2047 then s.input_good else false })
  if is_quit_command input
      then modify (λ s. record s { is_quitting = true })
      else broadcast_message input

abbrev pub free_or_hang : Option ℕ → M Server ℕ
free_or_hang none = raise hang
free_or_hang (some port) = pure port

module _ (net : RakNet) where
  unfoldable pub open_socket : NetworkState → M Server (Unit {0})
  open_socket ns_create_socket = do
    s ← get
    emit (startup expected_players (u16 s.port))
    guard (net.startup_succeeds (u16 s.port)) assertion
    emit (set_maximum_incoming_connections expected_players)
    modify (λ s. record s { network_state = ns_lobby })
    emit (print (codes "Server waiting on connections...\n"))
  open_socket ns_initialization = pure tt
  open_socket ns_lobby = pure tt
  open_socket ns_game_started = pure tt

  unfoldable pub game_loop : M Server (Unit {0})
  game_loop = do s ← get; open_socket s.network_state

  -- `while (IsPortInUse(port, ...)) port++;` on an unsigned int, of which the call takes 16 bits
  unfoldable pub first_free_port : ℕ → ℕ → Option ℕ
  first_free_port zero port = none
  first_free_port (suc fuel) port = elim (net.is_port_in_use (u16 port)) [
    | true ↦ first_free_port fuel ((port + 1) % 2 ^ 32)
    | false ↦ some port
  ]

  -- `Start`, up to its loop, for the port that is typed in.
  unfoldable pub start : ℕ → ℕ → M Server (Unit {0})
  start fuel entered = do
    emit (print (codes "RRPG Server\nEnter listening port: "))
    port ← free_or_hang (first_free_port fuel entered)
    modify (λ s. record s { port = port })
    emit (
        print (
          codes "IP Address: "
          ++ (net.local_ip ++ (codes ":" ++ (show_int (int_of_u32 port) ++ codes "\n")))))
    modify (λ s. record s { network_state = ns_create_socket })

-- `Server::Get`, given what the static pointer holds and the memory of a new object.
abbrev pub get_instance : Option Server → Server → Server
get_instance none memory = construct memory
get_instance (some server) memory = server

-- `main`, up to the loop of `Start`.
unfoldable pub main : RakNet → ℕ → ℕ → Server → Result (Unit {0} × Server)
main net fuel entered memory = start net fuel entered (get_instance none memory)

-- What the threads do, in some order: a packet arrives, a line is typed, the main loop goes round.
pub data Event : Type 0 where
  receive : Packet → Event
  typed : Chars → Event
  tick : Event

module _ (net : RakNet) where
  unfoldable pub handle : Event → M Server (Unit {0})
  handle (receive p) = handle_packet net p
  handle (typed line) = handle_input line
  handle tick = game_loop net

  -- A round of a thread, which first looks at `IsRunning`.
  unfoldable pub step : Event → M Server (Unit {0})
  step e = do s ← get; if is_running s then handle e else pure tt

  unfoldable pub run : List Event → M Server (Unit {0})
  run [] s = ok (tt, s)
  run (e ∷ es) s = elim (step e s) [ fault f ↦ fault f | ok (_, s') ↦ run es s' ]
