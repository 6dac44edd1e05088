-- ===== src/Server/Frame.antt =====
-- RRPG Server/server.cpp: a predicate on the state against each kind of write that the handlers
-- make.

pub mod Handlers
pub mod Facts
pub mod Phases
use rrpg.Common.{
  ℕ, ◌+◌, ◌%◌, ◌==◌, ltb, leb, if◌then◌else◌, Bool, true, false, List, [], ◌∷◌, ◌++◌, Option, none,
  some, ◌≡◌, refl, M, Result, ok, fault, ◌>>=◌, pure, raise, get, modify, guard, Ends, Ends-bind,
  Keeps, keeps_rules, Keeps-bind, Keeps-modify, Keeps-if, Chars, ℤ, arith,
}
use rrpg.RakNet.{RakNet, Effect, Packet}
use rrpg.Protocol.{gs_character_select, gs_main, gs_game_over, Player, new_player}
use rrpg.StdMap
use rrpg.Server.{
  ns_create_socket, ns_lobby, ns_game_started, Server, NetworkState, ns_initialization,
  ns_create_socket, ns_lobby, ns_game_started, emit, get_player, get_address_from_id,
  get_random_integer, is_running,
}
use rrpg.Server.Broadcast.{broadcast_message, send_turn, add_health, modify_health}
use rrpg.Server.Turn.{lift, next_turn, game_over}
use rrpg.Server.Game.{start_game, start_main_game, first_key}
use rrpg.Server.Handlers.{
  decrement_connections, on_incoming_connection, set_ready, reject_surplus, announce_waiting,
  on_client_intro, on_client_chat_received, on_player_ready, on_player_unready,
  on_player_list_request, on_player_stats_request, u16,
}
use rrpg.Server.Actions.{
  or_assert, successor, pass_choice, on_player_job_chosen, perform, on_player_action_taken,
}
use rrpg.Server.Dispatch.{
  low_level, print_data, is_low_level_packet_handled, client_packet, handle_packet, handle_input,
  open_socket, game_loop, Event, receive, typed, tick, handle, step, run,
}

-- A write to a player that leaves the name alone and revives nobody.
abbrev pub IsTame : (Player → Player) → Type 0
IsTame f =
    (player : Player)
    → ((f player).name ≡ player.name) × (player.dead ≡ true → (f player).dead ≡ true)

-- The predicate survives each kind of write that the handlers make.
pub record IsFrame (P : Server → Type 0) : Type 0 where
  pub out_lem : (s : Server) (out : List Effect) → P s → P (record s { out = out })
  pub random_lem : (s : Server) (random : ℕ → ℕ) → P s → P (record s { random = random })
  pub input_lem : (s : Server) (good : Bool) → P s → P (record s { input_good = good })
  pub count_lem : (s : Server) (n : ℕ) → P s → P (record s { total_connections = n })
  pub address_lem : (s : Server) (m : List (ℕ × ℕ)) → P s → P (record s { player_addresses = m })
  pub turn_lem : (s : Server) (id : ℕ) → P s → P (record s { current_player_turn = id })
  pub main_lem : (s : Server) → P s → P (record s { game_state = gs_main })
  pub over_lem : (s : Server) → P s → P (record s { game_state = gs_game_over })
  pub start_lem :
      (s : Server)
      → P s
      → P (record s { network_state = ns_game_started; game_state = gs_character_select })
  pub lobby_lem :
      (s : Server)
      → s.network_state ≡ ns_create_socket
      → P s
      → P (record s { network_state = ns_lobby })
  pub emplace_lem :
      (s : Server) (id : ℕ) (player : Player)
      → P s
      → P (record s { players = StdMap.emplace id player s.players })
  pub adjust_lem :
      (s : Server) (id : ℕ) (f : Player → Player)
      → IsTame f
      → P s
      → P (record s { players = StdMap.adjust id f s.players })
  pub each_lem :
      (s : Server) (f : Player → Player)
      → IsTame f
      → P s
      → P (record s { players = StdMap.for_each f s.players })

add_health-IsTame : (diff : ℤ) → IsTame (add_health diff)
add_health-IsTame diff player = (ground arith, λ dead. ground arith)

module _ {P : Server → Type 0} (frame : IsFrame P) where
  pub emit-frame : (e : Effect) → Keeps P (emit e)
  unfolding emit
  emit-frame e = record { at = λ s h. frame.out_lem s (e ∷ s.out) h }

  pub get_player-frame : (id : ℕ) → Keeps P (get_player id)
  unfolding get_player
  get_player-frame id = record { at = λ s h. ground arith }

  pub get_address-frame : (id : ℕ) → Keeps P (get_address_from_id id)
  unfolding get_address_from_id
  get_address-frame id = record { at = λ s h. ground arith }

  pub get_random-frame : (low high : ℕ) → Keeps P (get_random_integer low high)
  unfolding get_random_integer
  get_random-frame low high = record { at = λ s h. frame.random_lem s _ h }

  pub lift-frame : {A : Type 0} (r : Result A) → Keeps P (lift r)
  unfolding lift
  lift-frame (ok a) = record { at = λ s h. h }
  lift-frame (fault e) = record { at = λ s h. tt }

  pub first_key-frame : (players : List (ℕ × Player)) → Keeps P (first_key players)
  first_key-frame [] = search keeps_rules
  first_key-frame ((id, player) ∷ rest) = search keeps_rules

  pub successor-frame : (it : List (ℕ × Player)) → Keeps P (successor it)
  successor-frame [] = search keeps_rules
  successor-frame (x ∷ rest) = search keeps_rules

  pub or_assert-frame : (o : Option ℕ) → Keeps P (or_assert o)
  or_assert-frame none = search keeps_rules
  or_assert-frame (some id) = search keeps_rules

  pub print_data-frame : (o : Option Chars) → Keeps P (print_data o)
  print_data-frame none = search keeps_rules
  print_data-frame (some text) = search (keeps_rules, emit-frame)

  pub count-frame :
      (f : ℕ → ℕ)
      → Keeps P (modify (λ s. record s { total_connections = u16 (f s.total_connections) }))
  count-frame f = Keeps-modify _ λ s h. frame.count_lem s _ h

  pub decrement-frame : Keeps P (modify decrement_connections)
  decrement-frame = count-frame (λ n. n + 65535)

  pub turn-frame : (id : ℕ) → Keeps P (modify (λ s. record s { current_player_turn = id }))
  turn-frame id = Keeps-modify _ λ s h. frame.turn_lem s id h

  pub main-frame : Keeps P (modify (λ s. record s { game_state = gs_main }))
  main-frame = Keeps-modify _ λ s h. frame.main_lem s h

  pub over-frame : Keeps P (modify (λ s. record s { game_state = gs_game_over }))
  over-frame = Keeps-modify _ λ s h. frame.over_lem s h

  pub started-frame :
      Keeps P (
        modify
          (λ s. record s { network_state = ns_game_started; game_state = gs_character_select }))
  started-frame = Keeps-modify _ λ s h. frame.start_lem s h

  pub address-frame :
      (id address : ℕ)
      → Keeps P (
          modify
            (λ s. record s { player_addresses = StdMap.emplace id address s.player_addresses }))
  address-frame id address = Keeps-modify _ λ s h. frame.address_lem s _ h

  pub emplace-frame :
      (id : ℕ) (player : Player)
      → Keeps P (modify (λ s. record s { players = StdMap.emplace id player s.players }))
  emplace-frame id player = Keeps-modify _ λ s h. frame.emplace_lem s id player h

  pub harm-frame :
      (id : ℕ) (diff : ℤ)
      → Keeps P (modify (λ s. record s { players = StdMap.adjust id (add_health diff) s.players }))
  harm-frame id diff =
      Keeps-modify _ λ s h. frame.adjust_lem s id (add_health diff) (add_health-IsTame diff) h

  pub set_ready-frame : (ready : Bool) (id : ℕ) → Keeps P (modify (set_ready ready id))
  set_ready-frame ready id =
      Keeps-modify _ λ s h. frame.adjust_lem s id _ (λ player. (refl, λ dead. dead)) h

  pub choose-frame :
      (id job : ℕ)
      → Keeps P (
          modify (λ s. record s {
            players = StdMap.adjust id (λ old. record old { ready = true; job = job }) s.players;
          }))
  choose-frame id job =
      Keeps-modify _ λ s h. frame.adjust_lem s id _ (λ player. (refl, λ dead. dead)) h

  pub unready_all-frame : Keeps P (
      modify (λ s. record s {
        players = StdMap.for_each (λ player. record player { ready = false }) s.players;
      }))
  unready_all-frame = Keeps-modify _ λ s h. frame.each_lem s _ (λ player. (refl, λ dead. dead)) h

  pub broadcast-frame : (input : Chars) → Keeps P (broadcast_message input)
  unfolding broadcast_message
  broadcast-frame input = search (keeps_rules, emit-frame)
