-- ===== src/Tests/Data.antt =====
-- Two players in a game, and packets, for the tests.
use rrpg.Common.{
  ℕ, zero, suc, ap, length, true, false, List, [], ◌∷◌, ◌++◌, ◌≡◌, refl, Chars, codes, pos, arith,
}
use rrpg.RakNet.{Packet, IsCString}
use rrpg.Protocol.{
  Player, warrior, wizard, assassin, gs_main, c_intro, c_ready, c_chat, c_job_chosen,
  c_action_taken,
}
use rrpg.Server
use rrpg.Server.Invariant.{IsWellFormed, Inv}
use rrpg.Client
use rrpg.Tests.Net.{test_net}

abbrev pub alice : Player
alice = record { name = codes "alice"; health = pos 100; ready = true; job = warrior; dead = false }

abbrev pub bob : Player
bob = record { name = codes "bob"; health = pos 10; ready = true; job = wizard; dead = false }

abbrev pub carol : Player
carol = record { name = codes "carol"; health = pos 0; ready = true; job = assassin; dead = true }

abbrev pub two_players : List (ℕ × Player)
two_players = (1, alice) ∷ (2, bob) ∷ []

abbrev pub game : Server.Server
game = record {
  network_state = Server.ns_game_started;
  game_state = gs_main;
  port = 6000;
  total_connections = 3;
  players = (1, alice) ∷ (2, bob) ∷ (3, carol) ∷ [];
  player_addresses = (1, 11) ∷ (2, 12) ∷ (3, 13) ∷ [];
  current_player_turn = 2;
  is_quitting = false;
  random = λ n. n;
  input_good = true;
  out = [];
}

abbrev pub client : Client.Client
client = record {
  network_state = Client.ns_lobby;
  game_state = 0;
  client_port = 6000;
  server_port = 6001;
  server_address = codes "127.0.0.1";
  player = alice;
  players = [];
  my_turn = false;
  out = [];
}

abbrev pub packet_of : ℕ → List ℕ → Packet
packet_of sender bytes = record { guid = sender; system_address = sender; bytes = bytes }

abbrev pub intro_packet : ℕ → Chars → Packet
intro_packet sender name = packet_of sender (
    test_net.to_bytes
      (test_net.byte_bits c_intro ++ (test_net.encode_string name 256 ++ test_net.bool_bits false)))

abbrev pub chat_packet : ℕ → Chars → Packet
chat_packet sender text =
    packet_of sender
      (test_net.to_bytes (test_net.byte_bits c_chat ++ (test_net.encode_string text 3000 ++ [])))

abbrev pub job_packet : ℕ → ℕ → Packet
job_packet sender job =
    packet_of sender (test_net.to_bytes (test_net.byte_bits c_job_chosen ++ test_net.byte_bits job))

abbrev pub ready_packet : ℕ → Packet
ready_packet sender = packet_of sender (test_net.to_bytes (test_net.byte_bits c_ready))

abbrev pub action_packet : ℕ → ℕ → Chars → Packet
action_packet sender action name = packet_of sender (
    test_net.to_bytes (
      test_net.byte_bits c_action_taken
      ++ (test_net.byte_bits action ++ test_net.encode_string name 256)))

-- A text of that many letters.
abbrev pub letters : ℕ → Chars
letters zero = []
letters (suc n) = 97 ∷ letters n

pub letters-IsCString : (n : ℕ) → IsCString (letters n)
letters-IsCString zero = tt
letters-IsCString (suc n) = ((omega arith, omega arith), letters-IsCString n)

pub length-letters : (n : ℕ) → length (letters n) ≡ n
length-letters zero = refl
length-letters (suc n) = ap suc (length-letters n)

-- The game with bob dead too.
abbrev pub last_alive : Server.Server
last_alive = record game {
  players = (1, alice) ∷ (2, record bob { dead = true }) ∷ (3, carol) ∷ [];
}

pub alice-IsWellFormed : IsWellFormed alice
alice-IsWellFormed = record {
  fits = refl;
  mortal = λ e. cc;
  short = omega arith;
  terminated = search arith;
  class_byte = omega arith;
}

pub bob-IsWellFormed : IsWellFormed bob
bob-IsWellFormed = record {
  fits = refl;
  mortal = λ e. cc;
  short = omega arith;
  terminated = search arith;
  class_byte = omega arith;
}

pub carol-IsWellFormed : IsWellFormed carol
carol-IsWellFormed = record {
  fits = refl;
  mortal = λ e. refl;
  short = omega arith;
  terminated = search arith;
  class_byte = omega arith;
}

pub game-Inv : Inv game
game-Inv = record {
  sorted = (omega arith, (omega arith, tt));
  addresses_sorted = (omega arith, (omega arith, tt));
  same_keys = refl;
  well_formed = (alice-IsWellFormed, (bob-IsWellFormed, (carol-IsWellFormed, tt)));
  counted = omega arith;
  in_turn = λ started. refl;
}
