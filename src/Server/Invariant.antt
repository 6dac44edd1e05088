-- ===== src/Server/Invariant.antt =====
-- What holds of the server between two packets: the two maps list the same clients, every player is
-- well formed, and once the game has started the turn is a player's.
pub mod Parts
pub mod Game
pub mod Handlers
pub mod Actions
pub mod Turn
pub mod Step
use rrpg.Common.{
  ℕ, ◌<◌, Bool, true, false, List, [], ◌≡◌, Chars, length, ℤ, fits_int32, is_positive, All,
}
use rrpg.RakNet.{IsCString}
use rrpg.Protocol.{Player}
use rrpg.StdMap.{keys}
use rrpg.StdMap.Order.{IsSorted, has_key}
use rrpg.Server.{Server, NetworkState, ns_game_started}

pub record IsWellFormed (player : Player) : Type 0 where
  pub fits : fits_int32 player.health ≡ true
  -- A player without health is dead. A dead player may be healed, and stays dead.
  pub mortal : is_positive player.health ≡ false → player.dead ≡ true
  pub short : length player.name < 256
  pub terminated : IsCString player.name
  pub class_byte : player.job < 256

pub record IsConsistent (network_state : NetworkState) (players : List (ℕ × Player))
    (addresses : List (ℕ × ℕ)) (connections turn : ℕ) : Type 0 where
  pub sorted : IsSorted players
  pub addresses_sorted : IsSorted addresses
  pub same_keys : keys players ≡ keys addresses
  pub well_formed : All (λ entry. IsWellFormed entry.1) players
  pub counted : connections < 65536
  pub in_turn : network_state ≡ ns_game_started → has_key turn (keys players) ≡ true

abbrev pub Inv : Server → Type 0
Inv s =
    IsConsistent s.network_state s.players s.player_addresses s.total_connections
      s.current_player_turn
