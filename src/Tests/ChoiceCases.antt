-- ===== src/Tests/ChoiceCases.antt =====
-- The theorems on choices at concrete packets, lines and states.
use rrpg.Common.{true, [], ◌∷◌, some, ◌≡◌, refl, ok, codes, Ends, ◌+◌, ◌≤◌, List, false}
use rrpg.RakNet.{Effect, Packet, send, to}
use rrpg.Protocol.{warrior, s_take_turn, gs_main, gs_character_select}
use rrpg.StdMap
use rrpg.Server
use rrpg.Client
use rrpg.Client.Input.{class_of_input}
use rrpg.Client.Input.Turn.{type_lines}
use rrpg.Client.Input.Target.{IsPlaying, type_lines-IsPlaying}
use rrpg.Session.Choice.{typed_class, typed_class-chosen}
use rrpg.Client.Dispatch.{Event, receive, typed}
use rrpg.Session.Pace.{turns_sent, one_if, turns_given, client_run}
use rrpg.Session.Pace.AtMost.{client_run-spends}
use rrpg.Tests.Net.{test_net, test_laws}
use rrpg.Tests.Data.{alice, bob, carol, game, client, job_packet, packet_of}

-- It is the first player's turn to choose.
abbrev first_choice : Server.Server
first_choice = record game { current_player_turn = 1 }

-- Alice is in turn, in the main game with bob.
abbrev with_bob : Client.Client
with_bob = record client {
  network_state = Client.ns_game_started;
  game_state = gs_main;
  players = bob ∷ [];
  my_turn = true;
}

type_lines-IsPlaying_example :
    Ends
      (type_lines test_net (codes ".HEAL Bob" ∷ codes ".stats" ∷ []) with_bob)
      (λ _. IsPlaying test_net (codes "alice"))
type_lines-IsPlaying_example =
    type_lines-IsPlaying test_net (codes "alice") (codes ".HEAL Bob" ∷ codes ".stats" ∷ []) with_bob
      (refl, refl, refl, tt)

abbrev choosing : Client.Client
choosing = record client { game_state = gs_character_select; my_turn = true }

typed_class-chosen_example :
    (s' : Server.Server) × (before : List Effect) × (Server.Dispatch.handle_packet test_net
        (job_packet 1 warrior)
        first_choice
      ≡ ok (tt, s'))
    × (StdMap.lookup 1 s'.players ≡ some (record alice { ready = true; job = warrior }))
    × (s'.current_player_turn ≡ 2)
    × (s'.out ≡ send (test_net.to_bytes (test_net.byte_bits s_take_turn)) (to 12) ∷ before)
    × (false ≡ false)
unfolding test_net StdMap.lookup StdMap.find StdMap.adjust class_of_input
typed_class-chosen_example =
    typed_class-chosen test_net test_laws (codes ".2") warrior choosing
      (record choosing {
        my_turn = false;
        out = Client.to_server test_net (job_packet 1 warrior).bytes ∷ [];
      })
      [] (job_packet 1 warrior) first_choice alice (1, alice) 2 12 bob ((3, carol) ∷ []) refl refl
      (typed_class test_net test_laws (codes ".2") warrior choosing refl refl) refl refl refl refl

abbrev in_game : Client.Client
in_game = record with_bob { my_turn = false }

abbrev turn_packet : Packet
turn_packet = packet_of 0 (test_net.to_bytes (test_net.byte_bits s_take_turn))

-- Alice is asked once, and types two actions.
abbrev twice : List Event
twice = receive turn_packet ∷ typed (codes ".heal me") ∷ typed (codes ".atk bob") ∷ []

client_run-spends_example :
    Ends
      (client_run test_net 1 twice in_game)
      (λ _ c'. turns_sent c'.out + one_if c'.my_turn ≤ 0 + 0 + turns_given twice)
client_run-spends_example = client_run-spends test_net test_laws 1 twice in_game
