-- ===== src/Tests/TurnCases.antt =====
-- The theorems on the main game and the server's threads at concrete packets.
use rrpg.Common.{arith, ok, Ends, ◌++◌, ◌⊎◌, Fault, fault, List, [], ◌∷◌, ◌≡◌, refl, codes}
use rrpg.RakNet.{Packet, Effect}
use rrpg.Protocol.{attack, gs_game_over, heal}
use rrpg.Server
use rrpg.Server.Dispatch.{run, receive}
use rrpg.Server.Frame.Phases.{phase, Changes, run-Changes}
use rrpg.Server.Threads.Commute.{packet_first, line_first, packet-line_commutes}
use rrpg.Client.Input.{action_bits}
use rrpg.Server.Handlers.{get_player_with_name}
use rrpg.Session.Battle.{IsAction}
use rrpg.Session.Battle.Whole.{Act, IsPlayed, packets, moves_of, battle-Moves}
use rrpg.Server.Battle.{view, Moves}
use rrpg.Tests.Net.{test_net, test_laws}
use rrpg.Tests.Data.{game, game-Inv, packet_of, ready_packet}

abbrev healing : Packet
healing = packet_of 2 (test_net.to_bytes (action_bits test_net heal (codes "bob")))

abbrev hurting : Packet
hurting = packet_of 1 (test_net.to_bytes (action_bits test_net attack (codes "bob")))

packet-line_commutes_example :
    ((f : Fault) × (run test_net (packet_first healing (codes "hello")) game ≡ fault f)
      × (run test_net (line_first healing (codes "hello")) game ≡ fault f))
    ⊎ ((t : Server.Server) × (answer heard : List Effect) × (run test_net
            (packet_first healing (codes "hello"))
            game
          ≡ ok (tt, record t { out = heard ++ (answer ++ []) }))
        × (run test_net (line_first healing (codes "hello")) game
            ≡ ok (tt, record t { out = answer ++ (heard ++ []) })))
packet-line_commutes_example =
    packet-line_commutes test_net healing (codes "hello") game (unfold Server.is_running in refl)

-- Everybody is ready, and a packet says so once more.
run-Changes_example :
    Ends
      (run test_net (receive (ready_packet 2) ∷ []) game)
      (λ _ s'. Changes (phase game) (phase s'))
run-Changes_example = run-Changes test_net (receive (ready_packet 2) ∷ []) game

healing-IsAction : IsAction test_net healing heal (codes "bob")
healing-IsAction = record {
  sent = refl;
  is_action = omega arith;
  text = search arith;
  short = omega arith;
}

-- Alice hurts bob, and then bob, who has fallen, is healed too late.
abbrev duel : List Act
duel =
    record { packet = hurting; action = attack; name = codes "bob"; target = 2 }
    ∷ record { packet = healing; action = heal; name = codes "bob"; target = 2 }
    ∷ []

healing-IsPlayed :
    IsPlayed test_net game.players
      (record { packet = healing; action = heal; name = codes "bob"; target = 2 })
unfolding test_net get_player_with_name
healing-IsPlayed = record { taken = healing-IsAction; known = refl; named = refl }

hurting-IsPlayed :
    IsPlayed test_net game.players
      (record { packet = hurting; action = attack; name = codes "bob"; target = 2 })
unfolding test_net get_player_with_name
hurting-IsPlayed = record {
  taken = record { sent = refl; is_action = omega arith; text = search arith; short = omega arith };
  known = refl;
  named = refl;
}

battle-Moves_example :
    (made left : List Act) × (s' : Server.Server) × (duel ≡ made ++ left)
    × (run test_net (packets made) game ≡ ok (tt, s'))
    × Moves (moves_of made) (view game) (view s')
    × ((left ≡ []) ⊎ (s'.game_state ≡ gs_game_over))
battle-Moves_example =
    battle-Moves test_net test_laws duel game game-Inv refl (unfold Server.is_running in refl)
      (omega arith)
      ((omega arith, omega arith), ((omega arith, omega arith), ((omega arith, omega arith), tt)))
      (hurting-IsPlayed, (healing-IsPlayed, tt))
