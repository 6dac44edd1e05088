-- ===== src/Server/Invariant/Step.antt =====
-- RRPG Server/server.cpp: the invariant along the steps of the server.
use rrpg.Common.{
  ℕ, ◌+◌, ◌<◌, List, [], ◌∷◌, Option, none, some, refl, ◌>>=◌, modify, Ends, Ends-bind, Keeps,
  Keeps-modify, Keeps-if, Chars,
}
use rrpg.RakNet.{RakNet, RakNetLaws, Packet}
use rrpg.Server.{
  Server, NetworkState, ns_initialization, ns_create_socket, ns_lobby, ns_game_started, construct,
}
use rrpg.Server.Handlers.{u16, on_incoming_connection}
use rrpg.Server.Dispatch.{
  low_level, print_data, is_low_level_packet_handled, client_packet, handle_packet, handle_input,
  open_socket, game_loop, Event, receive, typed, tick, handle, step, run,
}
use rrpg.Server.Invariant.{Inv}
use rrpg.Server.Invariant.Parts.{part_rules, broadcast-Keeps}
use rrpg.Server.Invariant.Handlers.{
  counts-Keeps, handler_rules, on_client_intro-Keeps, chat-Keeps, ready-Keeps, unready-Keeps,
  list-Keeps, stats-Keeps,
}
use rrpg.Server.Invariant.Actions.{on_player_job_chosen-Keeps, on_player_action_taken-Keeps}

increment-Keeps :
    Keeps Inv (modify (λ s. record s { total_connections = u16 (s.total_connections + 1) }))
increment-Keeps = counts-Keeps (λ n. n + 1)

lobby-Keeps : Keeps Inv (modify (λ s. record s { network_state = ns_lobby }))
lobby-Keeps =
    Keeps-modify (λ s. record s { network_state = ns_lobby })
      λ s v. record {
        sorted = v.sorted;
        addresses_sorted = v.addresses_sorted;
        same_keys = v.same_keys;
        well_formed = v.well_formed;
        counted = v.counted;
        in_turn = λ started. cc;
      }

construct-Inv : (memory : Server) → memory.total_connections < 65536 → Inv (construct memory)
unfolding construct
construct-Inv memory h = record {
  sorted = tt;
  addresses_sorted = tt;
  same_keys = refl;
  well_formed = tt;
  counted = h;
  in_turn = λ started. cc;
}

module _ (net : RakNet) (laws : RakNetLaws net) where
  low_level-Keeps : (id : ℕ) (p : Packet) → Keeps Inv (low_level net id p)
  unfolding low_level on_incoming_connection
  low_level-Keeps id p = search (handler_rules, increment-Keeps) depth 16

  print_data-Keeps : (o : Option Chars) → Keeps Inv (print_data o)
  print_data-Keeps none = search part_rules
  print_data-Keeps (some text) = search part_rules

  client_packet-Keeps : (id : ℕ) (p : Packet) → Keeps Inv (client_packet net id p)
  unfolding client_packet
  client_packet-Keeps id p =
      search
        (
          Keeps-if,
          on_client_intro-Keeps net laws,
          chat-Keeps net laws,
          ready-Keeps net laws,
          unready-Keeps net laws,
          list-Keeps net laws,
          stats-Keeps net laws,
          on_player_job_chosen-Keeps net laws,
          on_player_action_taken-Keeps net laws,
          print_data-Keeps,
        )
        depth 10

  handle_packet-Keeps : (p : Packet) → Keeps Inv (handle_packet net p)
  unfolding handle_packet is_low_level_packet_handled
  handle_packet-Keeps p = search (part_rules, low_level-Keeps, client_packet-Keeps) depth 8

  handle_input-Keeps : (line : Chars) → Keeps Inv (handle_input line)
  unfolding handle_input ◌>>=◌
  handle_input-Keeps line = record { at = λ s v. (broadcast-Keeps _).at _ v }

  open_socket-Keeps : (state : NetworkState) → Keeps Inv (open_socket net state)
  unfolding open_socket
  open_socket-Keeps ns_create_socket = search (part_rules, lobby-Keeps) depth 9
  open_socket-Keeps ns_initialization = search part_rules
  open_socket-Keeps ns_lobby = search part_rules
  open_socket-Keeps ns_game_started = search part_rules

  game_loop-Keeps : Keeps Inv (game_loop net)
  unfolding game_loop
  game_loop-Keeps = search (part_rules, open_socket-Keeps)

  handle-Keeps : (e : Event) → Keeps Inv (handle net e)
  unfolding handle
  handle-Keeps (receive p) = handle_packet-Keeps p
  handle-Keeps (typed line) = handle_input-Keeps line
  handle-Keeps tick = game_loop-Keeps

  -- Every step of the server keeps the invariant.
  pub step-Inv : (e : Event) → Keeps Inv (step net e)
  unfolding step
  step-Inv e = search (part_rules, handle-Keeps)

  pub run-Inv : (es : List Event) (s : Server) → Inv s → Ends (run net es s) (λ _. Inv)
  unfolding run
  run-Inv [] s v = v
  run-Inv (e ∷ es) s v =
      Ends-bind (step net e s) (λ _. run net es) ((step-Inv e).at s v)
        λ _. record { at = run-Inv es }

  -- After any packets, lines of input and rounds of the main loop, in any order, a server that has
  -- stopped at no fault satisfies the invariant: both maps are in order and list the same clients,
  -- every player is well formed (with a C string of less than 256 characters for a name, and dead
  -- once without health), and once the game has started the turn is that of a client of the map.
  -- The members that the constructor does not set may hold anything, an unsigned short in the
  -- count of connections.
  pub run-construct-Inv :
      (memory : Server) (es : List Event)
      → memory.total_connections < 65536
      → Ends (run net es (construct memory)) (λ _. Inv)
  run-construct-Inv memory es h = run-Inv es (construct memory) (construct-Inv memory h)
