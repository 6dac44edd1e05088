-- ===== src/Tests/RunCases.antt =====
-- The theorems on whole runs of the server at concrete packets and states.
use rrpg.Common.{
  true, ◌⊎◌, ℕ, ◌==◌, ◌+◌, ◌≤◌, length, if◌then◌else◌, false, List, [], ◌∷◌, ◌++◌, some, none, ◌≡◌,
  refl, ok, codes, arith, Chars, ◌%◌, inl, inr,
}
use rrpg.RakNet.{IsCString, Packet, Effect, send, to}
use rrpg.Protocol.{
  gs_game_over, get_packet_identifier, Player, new_player, c_intro, attack, gs_main,
  gs_character_select, s_take_turn,
}
use rrpg.StdMap
use rrpg.StdMap.{keys}
use rrpg.StdMap.Order.{has_key}
use rrpg.Server.{Server, construct, ns_game_started, ns_lobby}
use rrpg.Server.Invariant.{Inv, IsWellFormed}
use rrpg.Server.Dispatch.{run, handle_packet}
use rrpg.Server.Dispatch.Run.{packets_of}
use rrpg.Session.Join.{IsJoining}
use rrpg.Session.Lobby.{IsReady}
use rrpg.Session.Lobby.Waits.{told, told_all, ready_all, ready-waits}
use rrpg.Session.Lobby.Starts.{selecting, lobby-starts}
use rrpg.Client.Input.{action_bits}
use rrpg.Server.Battle.{Move, view}
use rrpg.Server.Turn.Outcome.{Asks}
use rrpg.Server.Handlers.{get_player_with_name}
use rrpg.Session.Battle.{IsAction, action-Move}
use rrpg.Session.Selection.{assign, with_class, IsChoice}
use rrpg.Session.Selection.Ends.{selection-ends}
use rrpg.Session.Opening.Whole.{opening, session-opens}
use rrpg.Tests.Net.{test_net, test_laws}
use rrpg.Tests.Data.{
  alice, bob, carol, game, game-Inv, alice-IsWellFormed, bob-IsWellFormed, carol-IsWellFormed,
  packet_of, ready_packet, job_packet,
}

abbrev jobs : ℕ → ℕ
jobs k = k % 3

abbrev choice : ℕ → Packet
choice k = job_packet k (k % 3)

choice-IsChoice : (k : ℕ) → IsChoice test_net (choice k) k (jobs k)
unfolding test_net
choice-IsChoice k = record { from = refl; sent = refl; is_byte = omega arith }

ready_packet-IsReady : (k : ℕ) → IsReady test_net (ready_packet k) k
unfolding test_net
ready_packet-IsReady k = record { from = refl; sent = refl }

-- The first player is to choose.
abbrev choosing : Server
choosing = record game { game_state = gs_character_select; current_player_turn = 1 }

choosing-Inv : Inv choosing
choosing-Inv = record {
  sorted = game-Inv.sorted;
  addresses_sorted = game-Inv.addresses_sorted;
  same_keys = refl;
  well_formed = game-Inv.well_formed;
  counted = game-Inv.counted;
  in_turn = λ started. refl;
}

selection-ends_example :
    (s' : Server) × (address : ℕ) × (before : List Effect) × (run test_net
        (packets_of choice (1 ∷ 2 ∷ 3 ∷ []))
        choosing
      ≡ ok (tt, s'))
    × (s'.players ≡ assign jobs choosing.players)
    × (s'.game_state ≡ gs_main)
    × (s'.current_player_turn ≡ 1)
    × (StdMap.lookup 1 choosing.player_addresses ≡ some address)
    × (s'.out ≡ send (test_net.to_bytes (test_net.byte_bits s_take_turn)) (to address) ∷ before)
selection-ends_example =
    selection-ends test_net test_laws choice jobs choosing 1 alice ((2, bob) ∷ (3, carol) ∷ [])
      choosing-Inv (unfold rrpg.Server.is_running in refl) refl refl refl (omega arith)
      (choice-IsChoice 1, (choice-IsChoice 2, (choice-IsChoice 3, tt)))

-- Alice is ready, and the others are not.
abbrev lobby : Server
lobby = record game {
  network_state = ns_lobby;
  players =
      (1, alice) ∷ (2, record bob { ready = false }) ∷ (3, record carol { ready = false }) ∷ [];
}

idle-IsWellFormed :
    (player : Player) → IsWellFormed player → IsWellFormed (record player { ready = false })
idle-IsWellFormed player w = record {
  fits = w.fits;
  mortal = w.mortal;
  short = w.short;
  terminated = w.terminated;
  class_byte = w.class_byte;
}

lobby-Inv : Inv lobby
lobby-Inv = record {
  sorted = game-Inv.sorted;
  addresses_sorted = game-Inv.addresses_sorted;
  same_keys = refl;
  well_formed = (
    alice-IsWellFormed,
    (idle-IsWellFormed bob bob-IsWellFormed, (idle-IsWellFormed carol carol-IsWellFormed, tt)),
  );
  counted = game-Inv.counted;
  in_turn = λ started. refl;
}

lobby-starts_example :
    (address : ℕ) × (StdMap.lookup 1 lobby.player_addresses ≡ some address)
    × (run test_net (packets_of ready_packet (3 ∷ [])) lobby
        ≡ ok (
          tt,
          record lobby {
            players = ready_all (3 ∷ []) lobby.players;
            out = told_all (3 ∷ []) lobby.players [];
          },
        ))
    × (run test_net (packets_of ready_packet (3 ∷ 2 ∷ [])) lobby
        ≡ ok (
          tt,
          selecting test_net 1 address lobby.players (told_all (3 ∷ 2 ∷ []) lobby.players []) lobby,
        ))
lobby-starts_example =
    lobby-starts test_net test_laws ready_packet lobby 1 alice
      ((2, record bob { ready = false }) ∷ (3, record carol { ready = false }) ∷ []) (3 ∷ []) [] 2
      lobby-Inv (unfold rrpg.Server.is_running in refl) refl refl (refl, (refl, tt))
      (unfold StdMap.lookup in ((_, refl, refl), ((_, refl, refl), tt)))
      (inl refl, (inr refl, (inr refl, tt))) (ready_packet-IsReady 3, (ready_packet-IsReady 2, tt))

-- Carol is ready, and bob is not.
ready-waits_example :
    handle_packet test_net (ready_packet 3) lobby
    ≡ ok (
      tt,
      record lobby {
        players = StdMap.adjust 3 (λ q. record q { ready = true }) lobby.players;
        out = told (record carol { ready = false }) [];
      },
    )
ready-waits_example =
    ready-waits test_net test_laws (ready_packet 3) 3 lobby (record carol { ready = false })
      (ready_packet-IsReady 3) (unfold StdMap.lookup in refl) lobby-Inv
      (inl (
        2,
        record bob { ready = false },
        λ e. omega (arith, e),
        unfold StdMap.lookup in refl,
        refl,
      ))

abbrev name_of : ℕ → Chars
name_of k = if k == 1 then codes "alice" else if k == 2 then codes "bob" else codes "carol"

abbrev arrival : ℕ → Packet
arrival k = packet_of k (19 ∷ [])

abbrev intro_of : ℕ → Chars → Packet
intro_of k name = packet_of k (
    test_net.to_bytes (
      test_net.byte_bits c_intro
      ++ (test_net.encode_string name (length name + 1) ++ test_net.bool_bits false)))

abbrev intro : ℕ → Packet
intro k = intro_of k (name_of k)

intro_of-IsJoining :
    (k : ℕ) (name : Chars)
    → IsCString name
    → length name ≤ 243
    → IsJoining test_net (packet_of k (19 ∷ [])) (intro_of k name) k name
unfolding test_net get_packet_identifier
intro_of-IsJoining k name text short = record {
  arrives = refl;
  from = refl;
  sent = refl;
  text = text;
  short = short;
}

abbrev memory : Server
memory = record game { total_connections = 0 }

session-opens_example :
    (s : Server) × (later : List ℕ) × (run test_net
        (opening arrival intro ready_packet choice name_of (3 ∷ 1 ∷ 2 ∷ []))
        (construct memory)
      ≡ ok (tt, s))
    × (s.game_state ≡ gs_main)
    × (keys s.players ≡ s.current_player_turn ∷ later)
    × ((k : ℕ)
        → StdMap.lookup k s.players ≡ (
            if has_key k (3 ∷ 1 ∷ 2 ∷ [])
            then some (with_class (jobs k) (new_player (name_of k)))
            else none))
session-opens_example =
    session-opens test_net test_laws memory arrival intro ready_packet choice name_of jobs
      (3 ∷ 1 ∷ 2 ∷ []) refl refl refl (refl, (refl, (refl, tt)))
      (
        intro_of-IsJoining 3 (codes "carol") (search arith) (omega arith),
        (
          intro_of-IsJoining 1 (codes "alice") (search arith) (omega arith),
          (intro_of-IsJoining 2 (codes "bob") (search arith) (omega arith), tt),
        ),
      )
      (ready_packet-IsReady 3, (ready_packet-IsReady 1, (ready_packet-IsReady 2, tt)))
      (λ k there. choice-IsChoice k)

-- Alice attacks bob, who has ten left and falls.
abbrev fatal : Packet
fatal = packet_of 1 (test_net.to_bytes (action_bits test_net attack (codes "bob")))

fatal-IsAction : IsAction test_net fatal attack (codes "bob")
fatal-IsAction = record {
  sent = refl;
  is_action = omega arith;
  text = search arith;
  short = omega arith;
}

action-Move_example :
    (s' : Server) × (handle_packet test_net fatal game ≡ ok (tt, s'))
    × Move attack 2 (view game) (view s')
    × (Asks test_net s' ⊎ (s'.game_state ≡ gs_game_over))
unfolding test_net StdMap.lookup get_player_with_name
action-Move_example =
    action-Move test_net test_laws fatal game attack (codes "bob") alice bob 2 fatal-IsAction
      game-Inv refl (omega arith) refl refl refl (omega arith, omega arith)
