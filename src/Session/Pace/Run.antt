-- ===== src/Session/Pace/Run.antt =====
-- RRPG/RRPG.cpp: a client over any packets, lines and rounds of its main loop.
use rrpg.Common.{
  ℕ, ◌==◌, if◌then◌else◌, false, Option, none, ◌≡◌, refl, M, Keeps, Keeps-bind, Keeps-modify,
  keeps_rules, Chars,
}
use rrpg.RakNet.{RakNet, RakNetLaws, Packet, print, startup, set_occasional_ping, connect}
use rrpg.Protocol.{s_take_turn}
use rrpg.Client.{
  Client, NetworkState, ns_initialization, ns_create_socket, ns_pending_connection, ns_connected,
  ns_running, ns_lobby, ns_game_started, emit,
}
use rrpg.Client.Packets.{
  payload, on_game_start, on_game_over, on_connection_accepted, rounds, on_players_list_received,
  on_players_stats_received, on_main_game_start, on_game_state_update, on_players_health_updated,
}
use rrpg.Client.Dispatch.{print_data, low_level, server_packet, open_socket, game_loop}
use rrpg.Session.Pace.{IsWithin}
use rrpg.Session.Pace.Typed.{emit-IsWithin, print-IsWithin}
use rrpg.Session.Pace.Received.{
  network-IsWithin, started-IsWithin, over-IsWithin, print_data-IsWithin, free-IsWithin,
  use_of-IsWithin, health-IsWithin, accepted-IsWithin, list-loop, stats-loop, entries-loop,
}

module _ (n : ℕ) (net : RakNet) (laws : RakNetLaws net) where
  list-IsWithin : (p : Packet) → Keeps (IsWithin n) (on_players_list_received net p)
  unfolding on_players_list_received
  list-IsWithin p =
      Keeps-bind _ _ (use_of-IsWithin n _)
        λ k. Keeps-bind _ _ (list-loop n net laws (rounds k) 1 none _) λ _. search keeps_rules

  stats-IsWithin : (p : Packet) → Keeps (IsWithin n) (on_players_stats_received net p)
  unfolding on_players_stats_received
  stats-IsWithin p =
      Keeps-bind _ _ (use_of-IsWithin n _)
        λ k. Keeps-bind _ _ (stats-loop n net laws (rounds k) 1 none none _) λ _. search keeps_rules

  main-IsWithin : (p : Packet) → Keeps (IsWithin n) (on_main_game_start net p)
  unfolding on_main_game_start
  main-IsWithin p = Keeps-bind _ _ (use_of-IsWithin n _) λ k.
      Keeps-bind _ _ (search keeps_rules) λ _. entries-loop n net laws (rounds k) none none none _

  gs-over : Keeps (IsWithin n) on_game_over
  gs-over = over-IsWithin n

  update-IsWithin : (p : Packet) → Keeps (IsWithin n) (on_game_state_update net p)
  unfolding on_game_state_update
  update-IsWithin p =
      Keeps-bind _ _ (Keeps-modify _ λ s h. h)
        λ _. search (keeps_rules, main-IsWithin, gs-over) depth 14

  player_health-IsWithin : (p : Packet) → Keeps (IsWithin n) (on_players_health_updated net p)
  unfolding on_players_health_updated
  player_health-IsWithin p =
      let (name, rest) = net.decode_string 256 (payload net p) in health-IsWithin n name _

  prints : (text : Chars) → Keeps (IsWithin n) (emit (print text))
  prints text = print-IsWithin n text

  accepts : (p : Packet) → Keeps (IsWithin n) (on_connection_accepted net p)
  accepts p = accepted-IsWithin n net laws p

  pub low_level-IsWithin : (id : ℕ) (p : Packet) → Keeps (IsWithin n) (low_level net id p)
  unfolding low_level
  low_level-IsWithin id p = search (keeps_rules, accepts, prints) depth 30

  starts : Keeps (IsWithin n) on_game_start
  starts = started-IsWithin n

  data-prints : (o : Option Chars) → Keeps (IsWithin n) (print_data o)
  data-prints o = print_data-IsWithin n o

  skips :
      (m k : M Client (Unit {0}))
      → Keeps (IsWithin n) k
      → Keeps (IsWithin n) (if false then m else k)
  skips m k h = h

  -- Any identifier but one.
  pub other-IsWithin :
      (id : ℕ) (p : Packet)
      → (id == s_take_turn) ≡ false
      → Keeps (IsWithin n) (server_packet net id p)
  unfolding server_packet
  other-IsWithin id p away = rw away (
      search
        (
          keeps_rules, list-IsWithin, stats-IsWithin, starts, update-IsWithin,
          player_health-IsWithin, data-prints, skips,
        )
        depth 20)

  socket-IsWithin :
      (fuel : ℕ) (state : NetworkState) → Keeps (IsWithin n) (open_socket net fuel state)
  unfolding open_socket
  socket-IsWithin fuel ns_create_socket = Keeps-bind _ _ (search keeps_rules) λ s.
      Keeps-bind _ _ (free-IsWithin n _) λ port.
        Keeps-bind _ _ (emit-IsWithin n (startup 8 port) refl) λ _.
          Keeps-bind _ _ (search keeps_rules) λ _.
            Keeps-bind _ _ (emit-IsWithin n set_occasional_ping refl) λ _.
              Keeps-bind _ _ (emit-IsWithin n (connect _ _) refl) λ _.
                Keeps-bind _ _ (search keeps_rules) λ _.
                  Keeps-bind _ _ (print-IsWithin n _) λ _. network-IsWithin n ns_pending_connection
  socket-IsWithin fuel ns_initialization = search keeps_rules
  socket-IsWithin fuel ns_pending_connection = search keeps_rules
  socket-IsWithin fuel ns_connected = search keeps_rules
  socket-IsWithin fuel ns_running = search keeps_rules
  socket-IsWithin fuel ns_lobby = search keeps_rules
  socket-IsWithin fuel ns_game_started = search keeps_rules

  pub loop-IsWithin : (fuel : ℕ) → Keeps (IsWithin n) (game_loop net fuel)
  unfolding game_loop
  loop-IsWithin fuel = search (keeps_rules, socket-IsWithin) depth 12
