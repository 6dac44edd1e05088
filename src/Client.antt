-- ===== src/Client.antt =====
-- RRPG/RRPG.h and RRPG.cpp: the client. `out` holds what was sent and printed, the latest first.
pub mod Input
pub mod Packets
pub mod Dispatch
use rrpg.Common.{
  ℕ, ◌==◌, if◌then◌else◌, Bool, true, false, pos, List, [], ◌∷◌, ◌++◌, M, pure, get, ok, ◌>>=◌,
  ◌>>◌, Chars, codes,
}
use rrpg.RakNet.{RakNet, Effect, send, print, to}
use rrpg.Protocol.{Player, gs_character_select, gs_main}

pub data NetworkState : Type 0 where
  ns_initialization ns_create_socket ns_pending_connection ns_connected ns_running : NetworkState
  ns_lobby ns_game_started : NetworkState

pub record Client : Type 0 where
  pub network_state : NetworkState
  pub game_state : ℕ
  pub client_port : ℕ
  pub server_port : ℕ
  pub server_address : Chars
  pub player : Player
  pub players : List Player
  pub my_turn : Bool
  pub out : List Effect

unfoldable pub emit : Effect → M Client (Unit {0})
emit e s = ok (tt, record s { out = e ∷ s.out })

-- The constructor sets one member; the other members that it does not touch keep what the memory
-- holds, save those whose types initialise themselves.
unfoldable pub construct : Client → Client
construct memory = record memory {
  network_state = ns_initialization;
  server_address = [];
  player = record {
    name = [];
    health = pos 100;
    ready = false;
    job = memory.player.job;
    dead = false;
  };
  players = [];
  out = [];
}

abbrev pub lobby_instructions : Chars
lobby_instructions = codes "You can either...\n.ready\n.notready\n.players\n.whoami\n"

abbrev character_instructions : Chars
character_instructions =
    codes
      "Select a character.\n1. .wizard\n2. .warrior\n3. .assassin\nPrepend with a period (.) for example: .1/.wizard or .2/.warrior\n"

abbrev action_instructions : Chars
action_instructions =
    codes
      "Select an action.\n1. .heal(10)\n2. .healrng(5~15)\n3. .atk(12)\n4. .atkrng(6~18)\n.stats/.localstats\nPrepend with a period (.) for example: .1/.heal [name] or .4/.atkrng [name]\n"

game_instructions : ℕ → M Client (Unit {0})
game_instructions state =
    if state == gs_character_select
    then emit (print character_instructions)
    else if state == gs_main
    then emit (print action_instructions)
    else pure tt

instructions_in : NetworkState → ℕ → M Client (Unit {0})
unfolding game_instructions
instructions_in ns_lobby state = emit (print lobby_instructions)
instructions_in ns_game_started state = game_instructions state
instructions_in _ state = pure tt

unfoldable pub print_instructions : M Client (Unit {0})
unfolding instructions_in
print_instructions = do s ← get; instructions_in s.network_state s.game_state

-- `rpi->Send(&bs, ..., rpi->GetSystemAddressFromIndex(0), false)`
abbrev pub to_server : RakNet → List ℕ → Effect
to_server net bytes = send bytes (to (net.address_from_index 0))
