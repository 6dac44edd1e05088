-- ===== src/Tests/ServerCases.antt =====
-- The theorems on the server at concrete packets and states.
use rrpg.Common.{
  ℕ, true, List, [], ◌∷◌, ◌++◌, none, some, ◌≡◌, refl, ap, ◌∙◌, ◌<◌, ok, Ends, codes, length, arith,
}
use rrpg.RakNet.{send, print, everyone}
use rrpg.Protocol.{heal, attack, c_chat}
use rrpg.StdMap
use rrpg.StdMap.Order.{IsSorted}
use rrpg.Server.{Server, construct, is_running}
use rrpg.Server.Broadcast.{text_bytes}
use rrpg.Server.Turn.{next_alive, choose_next, found_or_hang, next_turn}
use rrpg.Server.Turn.Order.{first_alive, circle, choose_next-circle, next_alive_hangs}
use rrpg.Server.Turn.Outcome.{passed, won, next_turn-passed, next_turn-won}
use rrpg.Server.Handlers.{payload, on_client_chat_received}
use rrpg.Server.Handlers.Chat.{chat_text, chat_fits}
use rrpg.Server.Dispatch.{Event, receive, typed, tick, run, first_free_port}
use rrpg.Server.Dispatch.Port.{first_free_port_lem}
use rrpg.Server.Invariant.{Inv}
use rrpg.Server.Invariant.Turn.{next_turn-ends}
use rrpg.Server.Invariant.Step.{run-construct-Inv}
use rrpg.Server.Frame.Facts.{IsPlayer, run-IsPlayer, run-is_running}
use rrpg.Session.Wire.{text_lem}
use rrpg.Tests.Net.{test_net, test_laws}
use rrpg.Tests.Data.{
  alice, bob, carol, game, last_alive, packet_of, intro_packet, letters, letters-IsCString,
  length-letters, chat_packet, ready_packet, action_packet, game-Inv,
}

-- A session: three clients connect, introduce themselves and are ready, and one of them attacks.
abbrev session : List Event
session =
    tick
    ∷ receive (packet_of 1 (19 ∷ []))
    ∷ receive (intro_packet 1 (codes "alice"))
    ∷ receive (packet_of 2 (19 ∷ []))
    ∷ receive (intro_packet 2 (codes "bob"))
    ∷ typed (codes "Welcome")
    ∷ receive (ready_packet 1)
    ∷ receive (ready_packet 2)
    ∷ typed (codes ".quit")
    ∷ []

abbrev turns : List Event
turns =
    receive (action_packet 2 heal (codes "carol"))
    ∷ receive (action_packet 1 attack (codes "bob"))
    ∷ []

run-construct-Inv_example : Ends (run test_net session (construct game)) (λ _. Inv)
run-construct-Inv_example = run-construct-Inv test_net test_laws game session (omega arith)

run-IsPlayer_example :
    Ends
      (run test_net turns game)
      (λ _ s'. IsSorted s'.players × IsPlayer 3 (codes "carol") true s'.players)
run-IsPlayer_example =
    run-IsPlayer 3 (codes "carol") true test_net turns game game-Inv.sorted
      (carol, (unfold StdMap.lookup in refl), refl, λ e. refl)

run-is_running_example :
    Ends (run test_net (typed (codes ".quit") ∷ []) game) (λ _ s'. is_running s' ≡ is_running game)
run-is_running_example = run-is_running test_net (typed (codes ".quit") ∷ []) game

choose_next-circle_example :
    choose_next 2 game.players ≡ found_or_hang (first_alive (circle 2 game.players))
choose_next-circle_example = choose_next-circle 2 game.players bob (unfold StdMap.lookup in refl)

next_alive_hangs_example : next_alive 7 ((3, carol) ∷ []) [] ≡ none
next_alive_hangs_example =
    next_alive_hangs 7 ((3, carol) ∷ []) [] (unfold first_alive in refl)
      (unfold first_alive in refl)

next_turn-passed_example : next_turn test_net game ≡ ok (tt, passed test_net 1 alice 11 game)
next_turn-passed_example =
    next_turn-passed test_net game bob alice 1 (unfold StdMap.lookup in refl) game-Inv.sorted
      (unfold first_alive in refl) 11 (λ e. ground arith) (unfold StdMap.lookup in refl)

next_turn-ends_example : (s' : Server) × (next_turn test_net game ≡ ok (tt, s'))
next_turn-ends_example =
    next_turn-ends test_net game (1, alice) game-Inv refl (unfold first_alive in refl)

next_turn-won_example : next_turn test_net last_alive ≡ ok (tt, won test_net 1 alice last_alive)
next_turn-won_example =
    next_turn-won test_net last_alive (record bob { dead = true }) alice 1
      (unfold StdMap.lookup in refl) game-Inv.sorted (unfold first_alive in refl) refl

chat_text_sent :
    (n : ℕ)
    → n < 2048
    → length (test_net.decode_string 2048 (payload test_net (chat_packet 1 (letters n)))).0 ≡ n
chat_text_sent n short =
    ap length (
      text_lem test_net test_laws (chat_packet 1 (letters n)) c_chat 3000 2048 (letters n) [] refl
        (omega arith) (letters-IsCString n) (omega (arith, length-letters n))
        (omega (arith, length-letters n)))
    ∙ length-letters n

-- A fourth connection is one too many.
abbrev crowded : Server
crowded = record game { total_connections = 4 }

first_free_port_lem_example : first_free_port test_net 5 5998 ≡ some 6000
first_free_port_lem_example =
    first_free_port_lem test_net 2 5 5998 (omega arith) (λ i h. unfold test_net in ground arith)
      (unfold test_net in ground arith) (omega arith)

chat_fits_example :
    on_client_chat_received test_net (chat_packet 1 (letters 2)) game
    ≡ ok (
      tt,
      record game {
        out =
            send
              (text_bytes (
                chat_text alice.name
                  (test_net.decode_string 2048 (payload test_net (chat_packet 1 (letters 2)))).0))
              everyone
            ∷ print (
                chat_text alice.name
                  (test_net.decode_string 2048 (payload test_net (chat_packet 1 (letters 2)))).0
                ++ codes "\n")
            ∷ [];
      },
    )
chat_fits_example =
    chat_fits test_net (chat_packet 1 (letters 2)) game {player = alice}
      (unfold test_net StdMap.lookup in refl) (omega (arith, chat_text_sent 2 (omega arith)))
