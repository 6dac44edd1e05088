-- ===== src/Tests/SessionCases.antt =====
-- The theorems on the server and the client together at concrete packets and states.
use rrpg.Common.{
  ℕ, List, [], ◌∷◌, ◌++◌, some, ◌≡◌, refl, ok, fault, out_of_bounds, length, ◌+◌, codes, negsuc,
  arith, ◌+ℤ◌,
}
use rrpg.RakNet.{Effect, send, print, everyone, to, Packet}
use rrpg.Protocol.{Player, new_player, gs_main, gs_character_select, c_intro, c_chat}
use rrpg.StdMap
use rrpg.Server
use rrpg.Server.Broadcast.{add_health, health_packet, health_line, text_bytes}
use rrpg.Server.Broadcast.Outcome.{modify_health_fits}
use rrpg.Server.Game.{main_game_packet}
use rrpg.Server.Handlers.{sender}
use rrpg.Client
use rrpg.Session.Mirror.{Mirrors}
use rrpg.Session.Health.{modify_health-Mirrors}
use rrpg.Session.MainGame.{main_game-Mirrors}
use rrpg.Session.Intro.{intro_rest, connection_accepted_sends, intro-registers, long_name-overruns}
use rrpg.Session.Chat.{text-shown}
use rrpg.Session.Talk.{chat_sent, chat-delivered, chat-starts_game, long_line-overruns}
use rrpg.Server.Handlers.Chat.{chat_text}
use rrpg.Tests.Net.{test_net, test_laws}
use rrpg.Tests.Data.{
  letters, letters-IsCString, length-letters, alice, bob, carol, two_players, game, client,
  packet_of, game-Inv, alice-IsWellFormed, bob-IsWellFormed,
}

abbrev hurt : Player
hurt = add_health (negsuc 11) bob

-- The game after bob has lost 12 of his 10 points.
abbrev after_attack : Server.Server
after_attack = record game {
  players = StdMap.adjust 2 (add_health (negsuc 11)) game.players;
  out = send (health_packet test_net hurt) everyone ∷ print (health_line hurt) ∷ [];
}

abbrev health_sent : Packet
health_sent = packet_of 0 (health_packet test_net hurt)

abbrev playing : Client.Client
playing = record client { players = alice ∷ bob ∷ carol ∷ [] }

modify_health-Mirrors_example :
    (c' : Client.Client) × (Client.Dispatch.handle_packet test_net health_sent playing
      ≡ ok (tt, c'))
    × Mirrors after_attack.players c'.players
unfolding ◌+ℤ◌
modify_health-Mirrors_example =
    modify_health-Mirrors test_net test_laws game after_attack 2 (negsuc 11) health_sent playing
      (print (health_line hurt) ∷ []) game-Inv ((refl, (refl, tt)), ((refl, tt), (tt, tt)))
      (
        record { same_name = refl; same_health = refl; same_job = refl; same_dead = refl },
        (
          record { same_name = refl; same_health = refl; same_job = refl; same_dead = refl },
          (record { same_name = refl; same_health = refl; same_job = refl; same_dead = refl }, tt),
        ),
      )
      (modify_health_fits test_net 2 bob (negsuc 11) game (unfold StdMap.lookup in refl) refl) refl

abbrev main_sent : Packet
main_sent = packet_of 0 (main_game_packet test_net two_players)

main_game-Mirrors_example :
    (c' : Client.Client) × (Client.Dispatch.handle_packet test_net main_sent client ≡ ok (tt, c'))
    × Mirrors two_players c'.players
    × (c'.game_state ≡ gs_main)
main_game-Mirrors_example =
    main_game-Mirrors test_net test_laws main_sent two_players client refl
      (alice-IsWellFormed, (bob-IsWellFormed, tt)) (refl, (refl, tt)) (omega arith) refl

abbrev intro_sent : Packet
intro_sent =
    packet_of 5
      (test_net.to_bytes (test_net.byte_bits c_intro ++ intro_rest test_net test_laws client))

abbrev accepted : Packet
accepted = packet_of 9 (16 ∷ [])

abbrev introduced : Client.Client
introduced = record client {
  network_state = Client.ns_lobby;
  out =
      send intro_sent.bytes (to 9)
      ∷ print Client.lobby_instructions
      ∷ print (codes "Connection accepted!\n")
      ∷ [];
}

intro-registers_example :
    (s' : Server.Server) × (Server.Dispatch.handle_packet test_net intro_sent game ≡ ok (tt, s'))
    × (StdMap.lookup (sender test_net intro_sent) s'.players ≡ some (new_player (codes "alice")))
intro-registers_example =
    intro-registers test_net test_laws accepted intro_sent client introduced game
      (print Client.lobby_instructions ∷ print (codes "Connection accepted!\n") ∷ [])
      (connection_accepted_sends test_net test_laws accepted client) refl
      alice-IsWellFormed.terminated (omega arith) game-Inv.sorted
      (unfold test_net StdMap.lookup in refl)

abbrev greeting : Packet
greeting = packet_of 0 (text_bytes (codes "[Server] hi"))

text-shown_example :
    Client.Dispatch.handle_packet test_net greeting client
    ≡ ok (tt, record client { out = print (codes "[Server] hi" ++ codes "\n") ∷ [] })
text-shown_example =
    text-shown test_net greeting 91 (codes "Server] hi") client refl (search arith) (omega arith)
      (omega arith)

abbrev chat_line : Packet
chat_line =
    packet_of 1
      (test_net.to_bytes (test_net.byte_bits c_chat ++ test_net.encode_string (codes "hello") 6))

chat-delivered_example :
    (s' : Server.Server) × (bytes : List ℕ) × (before : List Effect)
    × (Server.Dispatch.handle_packet test_net chat_line game ≡ ok (tt, s'))
    × (s'.out ≡ send bytes everyone ∷ before)
    × (Client.Dispatch.handle_packet test_net
          (record { guid = 0; system_address = 0; bytes = bytes })
          playing
        ≡ ok (
          tt,
          record playing {
            out = print (chat_text (codes "alice") (codes "hello") ++ codes "\n") ∷ [];
          },
        ))
chat-delivered_example =
    chat-delivered test_net test_laws 104 (codes "ello") client
      (record client { out = Client.to_server test_net chat_line.bytes ∷ [] }) [] chat_line game
      alice 97 (codes "lice") 0 0 playing refl
      (chat_sent test_net test_laws 104 (codes "ello") client refl) refl (search arith)
      (omega arith) (unfold test_net StdMap.lookup in refl) refl alice-IsWellFormed.terminated
      (omega arith) (omega arith)

-- Alice has taken a name that begins with byte 134.
abbrev odd_game : Server.Server
odd_game = record game { players = (1, record alice { name = 134 ∷ codes "eve" }) ∷ [] }

chat-starts_game_example :
    (s' : Server.Server) × (bytes : List ℕ) × (before : List Effect)
    × (Server.Dispatch.handle_packet test_net chat_line odd_game ≡ ok (tt, s'))
    × (s'.out ≡ send bytes everyone ∷ before)
    × (Client.Dispatch.handle_packet test_net
          (record { guid = 0; system_address = 0; bytes = bytes })
          playing
        ≡ ok (
          tt,
          record playing {
            network_state = Client.ns_game_started;
            game_state = gs_character_select;
            out = print (codes "WE HAVE BEEGUNN!!!\n") ∷ [];
          },
        ))
chat-starts_game_example =
    chat-starts_game test_net test_laws 104 (codes "ello") client
      (record client { out = Client.to_server test_net chat_line.bytes ∷ [] }) [] chat_line odd_game
      (record alice { name = 134 ∷ codes "eve" }) (codes "eve") 0 0 playing refl
      (chat_sent test_net test_laws 104 (codes "ello") client refl) refl (search arith)
      (omega arith) (unfold test_net StdMap.lookup in refl) refl

-- A client with a name of 250 letters, and what it sends when it is accepted.
abbrev long_named : Client.Client
long_named = record client { player = record alice { name = letters 250 } }

abbrev long_intro : Packet
long_intro =
    packet_of 5
      (test_net.to_bytes (test_net.byte_bits c_intro ++ intro_rest test_net test_laws long_named))

long_name-overruns_example :
    Server.Dispatch.handle_packet test_net long_intro game ≡ fault out_of_bounds
long_name-overruns_example =
    long_name-overruns test_net test_laws accepted long_intro long_named
      (record long_named {
        network_state = Client.ns_lobby;
        out =
            send long_intro.bytes (to 9)
            ∷ print Client.lobby_instructions
            ∷ print (codes "Connection accepted!\n")
            ∷ [];
      })
      game (print Client.lobby_instructions ∷ print (codes "Connection accepted!\n") ∷ [])
      (connection_accepted_sends test_net test_laws accepted long_named) refl
      (letters-IsCString 250) (omega (arith, length-letters 250))
      (omega (arith, length-letters 250))

abbrev long_line : Packet
long_line = packet_of 1 (
    test_net.to_bytes (
      test_net.byte_bits c_chat
      ++ test_net.encode_string (97 ∷ letters 2045) (length (97 ∷ letters 2045) + 1)))

long_line-overruns_example :
    Server.Dispatch.handle_packet test_net long_line game ≡ fault out_of_bounds
long_line-overruns_example =
    long_line-overruns test_net test_laws 97 (letters 2045) client
      (record client { out = Client.to_server test_net long_line.bytes ∷ [] }) [] long_line game
      alice refl (chat_sent test_net test_laws 97 (letters 2045) client refl) refl
      ((omega arith, omega arith), letters-IsCString 2045) (omega (arith, length-letters 2045))
      (omega (arith, length-letters 2045)) (unfold test_net StdMap.lookup in refl)
