-- ===== src/Server.antt =====
-- RRPG Server/server.h and server.cpp. `Server` has the members of the class and the parts of the
-- environment that its methods use up: the random numbers to come, and whether `std::cin` is still
-- good. `out` holds what was sent and printed, the latest first.
pub mod Broadcast
pub mod Turn
pub mod Game
pub mod Handlers
pub mod Actions
pub mod Dispatch
pub mod Invariant
pub mod Frame
pub mod Battle
pub mod Threads
use rrpg.Common.{
  ℕ, ◌+◌, ◌-◌, ◌%◌, Bool, true, false, not, List, [], ◌∷◌, Option, none, some, M, pure, raise,
  modify, Chars, ok, fault, assertion,
}
use rrpg.RakNet.{RakNet, Effect, print}
use rrpg.Protocol.{Player}
use rrpg.StdMap

pub data NetworkState : Type 0 where
  ns_initialization ns_create_socket ns_lobby ns_game_started : NetworkState

pub record Server : Type 0 where
  pub network_state : NetworkState
  pub game_state : ℕ
  pub port : ℕ
  pub total_connections : ℕ  -- unsigned short
  pub players : List (ℕ × Player)
  pub player_addresses : List (ℕ × ℕ)
  pub current_player_turn : ℕ
  pub is_quitting : Bool
  pub random : ℕ → ℕ
  pub input_good : Bool
  pub out : List Effect

-- `Server::EXPECTED_PLAYERS`
abbrev pub expected_players : ℕ
expected_players = 3

-- The constructor, over the memory that the object takes: it sets one member, and the standard
-- library's members are empty.
unfoldable pub construct : Server → Server
construct memory = record memory {
  network_state = ns_initialization;
  players = [];
  player_addresses = [];
  input_good = true;
  out = [];
}

unfoldable pub emit : Effect → M Server (Unit {0})
emit e s = ok (tt, record s { out = e ∷ s.out })

-- `GetPlayer(unsigned long)`, with its `assert`. The reference is the key.
unfoldable pub get_player : ℕ → M Server Player
get_player id s = elim (StdMap.lookup id s.players) [
  | none ↦ fault assertion
  | some player ↦ ok (player, s)
]

-- `GetAddressFromID`, with its `assert`.
unfoldable pub get_address_from_id : ℕ → M Server ℕ
get_address_from_id id s = elim (StdMap.lookup id s.player_addresses) [
  | none ↦ fault assertion
  | some address ↦ ok (address, s)
]

-- `IsRunning`
unfoldable pub is_running : Server → Bool
is_running s = not s.is_quitting

-- `GetRandomInteger`: some number of the range, chosen by the next random number.
unfoldable pub get_random_integer : ℕ → ℕ → M Server ℕ
get_random_integer low high s =
    ok (low + s.random 0 % (high - low + 1), record s { random = λ n. s.random (n + 1) })
