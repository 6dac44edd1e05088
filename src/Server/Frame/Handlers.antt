-- ===== src/Server/Frame/Handlers.antt =====
-- A predicate that survives each kind of write, along the handlers and the steps of the server.
use rrpg.Common.{
  ◌∷◌, ◌≡◌, refl, Ends, Bool-cases, inl, inr, ℕ, ◌+◌, List, [], ◌∷◌, Option, none, some, ◌>>=◌,
  Ends-bind, Keeps, keeps_rules, Keeps-bind, Keeps-if, Chars, ℤ,
}
use rrpg.RakNet.{startup, set_maximum_incoming_connections, RakNet, Packet}
use rrpg.Protocol.{Player}
use rrpg.Server.{
  emit, expected_players, Server, NetworkState, ns_initialization, ns_create_socket, ns_lobby,
  ns_game_started,
}
use rrpg.Server.Broadcast.{send_turn, modify_health}
use rrpg.Server.Turn.{next_turn, game_over}
use rrpg.Server.Game.{start_game, start_main_game}
use rrpg.Server.Handlers.{
  u16, on_incoming_connection, reject_surplus, announce_waiting, on_client_intro,
  on_client_chat_received, on_player_ready, on_player_unready, on_player_list_request,
  on_player_stats_request,
}
use rrpg.Server.Actions.{pass_choice, on_player_job_chosen, perform, on_player_action_taken}
use rrpg.Server.Dispatch.{
  low_level, is_low_level_packet_handled, client_packet, handle_packet, handle_input, open_socket,
  game_loop, Event, receive, typed, tick, handle, step, run,
}
use rrpg.Server.Frame.{
  IsFrame, emit-frame, get_player-frame, get_address-frame, get_random-frame, lift-frame,
  first_key-frame, successor-frame, or_assert-frame, print_data-frame, count-frame, decrement-frame,
  turn-frame, main-frame, over-frame, started-frame, address-frame, emplace-frame, harm-frame,
  set_ready-frame, choose-frame, unready_all-frame, broadcast-frame,
}

ruleset part_rules = (
  keeps_rules, emit-frame, get_player-frame, get_address-frame, get_random-frame, lift-frame,
  broadcast-frame,
)

module _ {P : Server → Type 0} (frame : IsFrame P) (net : RakNet) where
  send_turn-frame : (id : ℕ) → Keeps P (send_turn net id)
  unfolding send_turn
  send_turn-frame id = search part_rules

  modify_health-frame : (id : ℕ) (diff : ℤ) → Keeps P (modify_health net id diff)
  unfolding modify_health
  modify_health-frame id diff = search (part_rules, harm-frame frame) depth 9

  game_over-frame : (id : ℕ) → Keeps P (game_over net id)
  unfolding game_over
  game_over-frame id = Keeps-bind _ _ (over-frame frame) λ _. search part_rules

  next_turn-frame : Keeps P (next_turn net)
  unfolding next_turn
  next_turn-frame = search (part_rules, turn-frame frame, game_over-frame, send_turn-frame) depth 9

  start_game-frame : Keeps P (start_game net)
  unfolding start_game
  start_game-frame = Keeps-bind _ _ (emit-frame frame _) λ _.
      Keeps-bind _ _ (started-frame frame) λ _. Keeps-bind _ _ (emit-frame frame _) λ _.
        Keeps-bind _ _ (unready_all-frame frame)
          λ _. search (part_rules, first_key-frame, turn-frame frame, send_turn-frame) depth 9

  start_main_game-frame : Keeps P (start_main_game net)
  unfolding start_main_game
  start_main_game-frame =
      Keeps-bind _ _ (main-frame frame) λ _. search (part_rules, next_turn-frame) depth 16

  reject_surplus-frame : (p : Packet) → Keeps P (reject_surplus net p)
  unfolding reject_surplus
  reject_surplus-frame p = search (part_rules, decrement-frame)

  announce_waiting-frame : Keeps P (announce_waiting net)
  unfolding announce_waiting
  announce_waiting-frame = search part_rules

  intro-frame : (p : Packet) → Keeps P (on_client_intro net p)
  unfolding on_client_intro
  intro-frame p =
      search
        (
          part_rules,
          reject_surplus-frame,
          address-frame frame,
          emplace-frame frame,
          announce_waiting-frame,
        )
        depth 12

  chat-frame : (p : Packet) → Keeps P (on_client_chat_received net p)
  unfolding on_client_chat_received
  chat-frame p = search part_rules

  ready-frame : (p : Packet) → Keeps P (on_player_ready net p)
  unfolding on_player_ready
  ready-frame p = search (part_rules, set_ready-frame frame, start_game-frame) depth 10

  unready-frame : (p : Packet) → Keeps P (on_player_unready net p)
  unfolding on_player_unready
  unready-frame p = search (part_rules, set_ready-frame frame)

  list-frame : (p : Packet) → Keeps P (on_player_list_request net p)
  unfolding on_player_list_request
  list-frame p = search part_rules

  stats-frame : (p : Packet) → Keeps P (on_player_stats_request net p)
  unfolding on_player_stats_request
  stats-frame p = search part_rules

  pass_choice-frame : (rest : List (ℕ × Player)) → Keeps P (pass_choice net rest)
  unfolding pass_choice
  pass_choice-frame [] = start_main_game-frame
  pass_choice-frame ((id, player) ∷ rest) = search (part_rules, turn-frame frame, send_turn-frame)

  job_chosen-frame : (p : Packet) → Keeps P (on_player_job_chosen net p)
  unfolding on_player_job_chosen
  job_chosen-frame p =
      search (part_rules, choose-frame frame, successor-frame, pass_choice-frame) depth 12

  perform-frame :
      (action : Option ℕ) (origin : Player) (id : ℕ) (target : Player)
      → Keeps P (perform net action origin id target)
  unfolding perform
  perform-frame none origin id target = search part_rules
  perform-frame (some action) origin id target = search (part_rules, modify_health-frame) depth 10

  action_taken-frame : (p : Packet) → Keeps P (on_player_action_taken net p)
  unfolding on_player_action_taken
  action_taken-frame p =
      search (part_rules, or_assert-frame, perform-frame, next_turn-frame) depth 10

  incoming-frame : Keeps P on_incoming_connection
  unfolding on_incoming_connection
  incoming-frame = count-frame frame (λ n. n + 1)

  low_level-frame : (id : ℕ) (p : Packet) → Keeps P (low_level net id p)
  unfolding low_level
  low_level-frame id p = search (part_rules, decrement-frame, incoming-frame) depth 16

  client_packet-frame : (id : ℕ) (p : Packet) → Keeps P (client_packet net id p)
  unfolding client_packet
  client_packet-frame id p =
      search
        (
          Keeps-if, intro-frame, chat-frame, ready-frame, unready-frame, list-frame, stats-frame,
          job_chosen-frame, action_taken-frame, print_data-frame,
        )
        depth 10

  handle_packet-frame : (p : Packet) → Keeps P (handle_packet net p)
  unfolding handle_packet is_low_level_packet_handled
  handle_packet-frame p = search (part_rules, low_level-frame, client_packet-frame) depth 8

  handle_input-frame : (line : Chars) → Keeps P (handle_input line)
  unfolding handle_input ◌>>=◌
  handle_input-frame line = record {
    at = λ s h. (broadcast-frame frame _).at _ (frame.input_lem s _ h);
  }

  -- The socket is opened in the state in which `GameLoop` finds the server.
  open_socket-frame :
      (s : Server) (state : NetworkState)
      → s.network_state ≡ state
      → P s
      → Ends (open_socket net state s) (λ _. P)
  unfolding open_socket ◌>>=◌ emit
  open_socket-frame s ns_create_socket here h =
      elim (Bool-cases (net.startup_succeeds (u16 s.port))) [
        | inl opened ↦ rw opened (
            frame.out_lem _ _ (
              frame.lobby_lem
                (record s {
                  out =
                      set_maximum_incoming_connections expected_players
                      ∷ startup expected_players s.port
                      ∷ s.out;
                })
                here (frame.out_lem s _ h)))
        | inr failed ↦ rw failed tt
      ]
  open_socket-frame s ns_initialization here h = h
  open_socket-frame s ns_lobby here h = h
  open_socket-frame s ns_game_started here h = h

  game_loop-frame : Keeps P (game_loop net)
  unfolding game_loop ◌>>=◌
  game_loop-frame = record { at = λ s h. open_socket-frame s s.network_state refl h }

  handle-frame : (e : Event) → Keeps P (handle net e)
  unfolding handle
  handle-frame (receive p) = handle_packet-frame p
  handle-frame (typed line) = handle_input-frame line
  handle-frame tick = game_loop-frame

  step-frame : (e : Event) → Keeps P (step net e)
  unfolding step
  step-frame e = search (part_rules, handle-frame)

  pub run-frame : (es : List Event) → Keeps P (run net es)
  unfolding run
  run-frame [] = record { at = λ s h. h }
  run-frame (e ∷ es) = record {
    at =
        λ s h. Ends-bind (step net e s) (λ _. run net es) ((step-frame e).at s h) λ _. run-frame es;
  }
