-- ===== src/Server/Actions/Choice.antt =====
-- RRPG Server/server.cpp: the selection of characters, from one player to the next and to the main
-- game.
use rrpg.Common.{
  ℕ, true, List, [], ◌∷◌, ◌++◌, some, ◌≡◌, refl, ap, ◌∙◌, ok, ◌>>=◌, M, get, Chars, codes, snprintf,
  arith,
}
use rrpg.RakNet.{RakNet, Bits, Packet, send, everyone, to}
use rrpg.Protocol.{Player, s_take_turn, gs_main}
use rrpg.StdMap
use rrpg.Server.{Server, get_player, emit}
use rrpg.Server.Broadcast.{broadcast_message}
use rrpg.Server.Broadcast.Outcome.{
  said, said_same, broadcast_message_fits, send_turn_lem, length-take_le,
}
use rrpg.Server.Turn.{next_turn}
use rrpg.Server.Game.{start_main_game, main_game_packet}
use rrpg.Server.Handlers.{sender, payload}
use rrpg.Server.Actions.{
  read_byte_into, or_old, chosen_class, successor, pass_choice, on_player_job_chosen,
}

abbrev pub choice_message : Player → ℕ → Chars
choice_message player job =
    snprintf 1024
      (player.name ++ (codes " has chosen to be a " ++ (chosen_class job ++ codes "\n")))

module _ (net : RakNet) where
  -- The sender's class is set, and everyone is told so.
  abbrev pub chosen : Packet → Player → ℕ → Server → Server
  chosen p player job s =
      let t : Server = record s {
        players =
            StdMap.adjust (sender net p) (λ old. record old { ready = true; job = job }) s.players;
      } in
      record t { out = (said (choice_message player job) t).out }

  -- The part of `OnPlayerJobChosen` that looks for the next player.
  abbrev choice_end : M Server (Unit {0})
  choice_end =
      get >>= λ s. successor (StdMap.find s.current_player_turn s.players) >>= pass_choice net

  choice_made :
      (p : Packet) (s : Server) (player : Player) (job : ℕ) (rest : Bits)
      → StdMap.lookup (sender net p) s.players ≡ some player
      → net.read_byte (payload net p) ≡ some (job, rest)
      → on_player_job_chosen net p s ≡ choice_end (chosen p player job s)
  unfolding on_player_job_chosen ◌>>=◌ get_player
  choice_made p s player job rest known read =
      let t : Server = record s {
        players =
            StdMap.adjust (sender net p) (λ old. record old { ready = true; job = job }) s.players;
      } in
      let spoken : broadcast_message (choice_message player job) t
          ≡ ok (tt, said (choice_message player job) t) =
        broadcast_message_fits (choice_message player job) t (
          omega (
            arith,
            length-take_le 1023
                (player.name ++ (codes " has chosen to be a " ++ (chosen_class job ++ codes "\n"))),
          )) in
      rw (known, ◌>>=◌, get_player)
        (rw (read, read_byte_into, or_old)
          (rw (spoken, ◌>>=◌) (ap choice_end (said_same (choice_message player job) t))))

  module _ (p : Packet) (s : Server) (player : Player) (job : ℕ) (rest : Bits)
      (known : StdMap.lookup (sender net p) s.players ≡ some player)
      (read : net.read_byte (payload net p) ≡ some (job, rest)) where
    -- A client of the map that sends a class has that class, everyone is told so, and the choice
    -- passes to the player behind the one whose turn it was, whose address alone gets
    -- `S_TAKE_TURN`. There is such a player, and it has an address.
    pub choice_passes :
        (x : ℕ × Player) (id address : ℕ) (next : Player) (more : List (ℕ × Player))
        → StdMap.find s.current_player_turn (chosen p player job s).players
          ≡ x ∷ ((id, next) ∷ more)
        → StdMap.lookup id s.player_addresses ≡ some address
        → on_player_job_chosen net p s
          ≡ ok (
            tt,
            record (chosen p player job s) {
              current_player_turn = id;
              out =
                  send (net.to_bytes (net.byte_bits s_take_turn)) (to address)
                  ∷ (chosen p player job s).out;
            },
          )
    unfolding pass_choice ◌>>=◌
    choice_passes x id address next more stands there =
        choice_made p s player job rest known read
        ∙ rw (stands, successor, ◌>>=◌, pass_choice)
            (send_turn_lem net id address
              (record (chosen p player job s) { current_player_turn = id }) there)

    -- The class of the last player of the map starts the main game: everyone gets all players with
    -- their classes, and the server goes on to the next turn.
    pub choice_starts_main :
        (x : ℕ × Player)
        → StdMap.find s.current_player_turn (chosen p player job s).players ≡ x ∷ []
        → on_player_job_chosen net p s
          ≡ next_turn net (record (chosen p player job s) {
            game_state = gs_main;
            out =
                send (main_game_packet net (chosen p player job s).players) everyone
                ∷ (chosen p player job s).out;
          })
    unfolding pass_choice ◌>>=◌ start_main_game emit
    choice_starts_main x stands =
        choice_made p s player job rest known read ∙ rw (stands, successor, ◌>>=◌, pass_choice) refl
