-- ===== src/Tests/GameCases.antt =====
-- The theorems on the course of a game at concrete packets, lines and states.
use rrpg.Common.{
  List, ℕ, true, false, [], ◌∷◌, some, ◌≡◌, refl, ok, Ends, codes, ℤ, split_words, arith,
}
use rrpg.RakNet.{send, print, everyone, to, Packet}
use rrpg.Protocol.{Player, heal, gs_main, gs_character_select, s_take_turn, s_game_started}
use rrpg.StdMap
use rrpg.Server
use rrpg.Server.Turn.{next_turn}
use rrpg.Server.Handlers.{on_player_ready, set_ready, get_player_with_name}
use rrpg.Server.Handlers.Ready.{readied, none_ready, on_player_ready_starts}
use rrpg.Server.Actions.Outcome.{IsEffect, IsHit}
use rrpg.Client
use rrpg.Client.Input.{action_of_word, target_of_word, action_bits}
use rrpg.Client.Input.Turn.{IsWaiting, type_lines, type_lines-IsWaiting}
use rrpg.Server.Dispatch.Main.{listening, main-listens}
use rrpg.Client.Dispatch.Main.{pending, main-connects}
use rrpg.Client.Dispatch.Port.{first_free_port-ends}
use rrpg.Session.Action.{typed_action, typed_action-performed}
use rrpg.Session.Lists.{listed, stats_listed}
use rrpg.Session.Lists.Requests.{arrived, players_request-answered, stats_request-answered}
use rrpg.Client.Input.{handle_input}
use rrpg.Tests.Net.{test_net, test_laws}
use rrpg.Tests.Data.{alice, bob, game, client, packet_of, ready_packet, bob-IsWellFormed, game-Inv}

abbrev in_turn : Client.Client
in_turn = record client {
  network_state = Client.ns_game_started;
  game_state = gs_main;
  players = alice ∷ bob ∷ [];
  my_turn = true;
}

abbrev action_sent : Packet
action_sent = packet_of 1 (test_net.to_bytes (action_bits test_net heal (codes "bob")))

typed_action-performed_example :
    (t : Server.Server) × (diff : ℤ) × (Server.Dispatch.handle_packet test_net action_sent game
      ≡ next_turn test_net t)
    × IsEffect heal diff
    × IsHit 2 diff game t
unfolding test_net StdMap.lookup split_words action_of_word target_of_word get_player_with_name
typed_action-performed_example =
    typed_action-performed test_net test_laws (codes ".heal bob") (codes ".heal") (codes "bob")
      (codes "bob") [] heal in_turn
      (record in_turn {
        my_turn = false;
        out =
            Client.to_server test_net (test_net.to_bytes (action_bits test_net heal (codes "bob")))
            ∷ [];
      })
      [] action_sent game alice bob 2 refl refl refl refl
      (typed_action test_net test_laws (codes ".heal bob") (codes ".heal") (codes "bob")
        (codes "bob") [] heal in_turn refl refl refl refl)
      refl bob-IsWellFormed.terminated (omega arith) refl refl refl (omega arith, omega arith)

abbrev carol : Player
carol = record bob { name = codes "carol"; ready = false }

-- Two players are ready, and the third is not yet.
abbrev lobby : Server.Server
lobby = record game {
  network_state = Server.ns_lobby;
  players = (1, alice) ∷ (2, bob) ∷ (3, carol) ∷ [];
}

on_player_ready_starts_example :
    on_player_ready test_net (ready_packet 3) lobby
    ≡ ok (
      tt,
      record lobby {
        network_state = Server.ns_game_started;
        game_state = gs_character_select;
        players = none_ready (set_ready true 3 lobby).players;
        current_player_turn = 1;
        out =
            send (test_net.to_bytes (test_net.byte_bits s_take_turn)) (to 11)
            ∷ send (test_net.to_bytes (test_net.byte_bits s_game_started)) everyone
            ∷ print (codes "Internal: Game has started.\n")
            ∷ (readied test_net (ready_packet 3) lobby carol).out;
      },
    )
unfolding test_net StdMap.lookup StdMap.adjust StdMap.for_each
on_player_ready_starts_example =
    on_player_ready_starts test_net (ready_packet 3) lobby carol refl (omega arith) 1 11
      (record alice { ready = false })
      ((2, record bob { ready = false }) ∷ (3, record carol { ready = false }) ∷ []) refl refl refl

players_request-answered_example :
    (request reply : List ℕ) × (handle_input test_net (codes ".Players") client
      ≡ ok (tt, record client { out = Client.to_server test_net request ∷ client.out }))
    × (Server.Dispatch.handle_packet test_net (arrived 1 11 request) game
        ≡ ok (tt, record game { out = send reply (to 11) ∷ [] }))
    × (Client.Dispatch.handle_packet test_net (arrived 0 0 reply) client
        ≡ ok (tt, record client { out = listed 1 game.players client.out }))
players_request-answered_example =
    players_request-answered test_net test_laws (codes ".Players") client client game 1 11 0 0 refl
      refl game-Inv (omega arith)

stats_request-answered_example :
    (request reply : List ℕ) × (handle_input test_net (codes ".stats") in_turn
      ≡ ok (tt, record in_turn { out = Client.to_server test_net request ∷ in_turn.out }))
    × (Server.Dispatch.handle_packet test_net (arrived 1 11 request) game
        ≡ ok (tt, record game { out = send reply (to 11) ∷ [] }))
    × (Client.Dispatch.handle_packet test_net (arrived 0 0 reply) in_turn
        ≡ ok (tt, record in_turn { out = stats_listed 1 game.players in_turn.out }))
stats_request-answered_example =
    stats_request-answered test_net test_laws (codes ".stats") in_turn in_turn game 1 11 0 0 refl
      refl game-Inv (omega arith)

first_free_port-ends_example :
    (r : ℕ) × (Client.Dispatch.first_free_port test_net 65536 5998 ≡ some r)
    × (test_net.is_port_in_use r ≡ false)
first_free_port-ends_example =
    first_free_port-ends test_net 65536 5998 7000 (omega arith) (omega arith)
      (unfold test_net in refl) (omega arith)

type_lines-IsWaiting_example :
    Ends
      (type_lines test_net
        (codes ".stats" ∷ codes "hello" ∷ codes ".1 bob" ∷ [])
        (record in_turn { my_turn = false }))
      (λ _. IsWaiting test_net)
type_lines-IsWaiting_example =
    type_lines-IsWaiting test_net (codes ".stats" ∷ codes "hello" ∷ codes ".1 bob" ∷ [])
      (record in_turn { my_turn = false }) (refl, refl, tt)

main-listens_example :
    (s t : Server.Server) × (Server.Dispatch.main test_net 5 5998 game ≡ ok (tt, s))
    × (Server.Dispatch.step test_net Server.Dispatch.tick s ≡ ok (tt, t))
    × (t ≡ listening test_net s)
    × (t.port ≡ 6000)
    × (t.players ≡ [])
    × (t.player_addresses ≡ [])
main-listens_example =
    main-listens test_net 2 5 5998 game (omega arith) (λ i h. unfold test_net in ground arith)
      (unfold test_net in ground arith) (omega arith) (unfold test_net in refl) refl

main-connects_example :
    (s t : Client.Client) × (r : ℕ) × (Client.Dispatch.main
        (codes "eve")
        5998
        6001
        (codes "127.0.0.1")
        client
      ≡ ok (tt, s))
    × (Client.Dispatch.game_loop test_net 65536 s ≡ ok (tt, t))
    × (test_net.is_port_in_use r ≡ false)
    × (t ≡ pending r s)
    × (t.player.name ≡ codes "eve")
    × (t.server_address ≡ codes "127.0.0.1")
    × (t.server_port ≡ 6001)
main-connects_example =
    main-connects test_net 65536 7000 5998 6001 (codes "eve") (codes "127.0.0.1") client
      (omega arith) (unfold test_net in refl) (omega arith) (λ r h. unfold test_net in refl)
      (unfold test_net in refl)
