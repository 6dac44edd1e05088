-- ===== src/Server/Turn.antt =====
-- RRPG Server/server.cpp: `NextTurn` and `GameOver`.
pub mod Order
pub mod Found
pub mod Outcome
use rrpg.Common.{
  ℕ, zero, suc, ◌+◌, ◌==◌, if◌then◌else◌, Bool, true, false, not, List, [], ◌∷◌, ◌++◌, Option, none,
  some, M, pure, modify, get, raise, Result, ok, fault, invalid_iterator, hang, ◌>>=◌, ◌>>◌, Chars,
  codes, snprintf, length, count_if,
}
use rrpg.RakNet.{RakNet, send, everyone}
use rrpg.Protocol.{Player, s_update_game_state, gs_game_over}
use rrpg.StdMap
use rrpg.Server.{Server, emit, get_player}
use rrpg.Server.Broadcast.{broadcast_message, send_turn}

-- `while (it == players.end() || it->second.dead)`, over the whole map and the iterator; `none`
-- means that the fuel ran out.
unfoldable pub next_alive : ℕ → List (ℕ × Player) → List (ℕ × Player) → Option (ℕ × Player)
next_alive zero players it = none
next_alive (suc fuel) players [] = next_alive fuel players players
next_alive (suc fuel) players ((id, player) ∷ rest) = elim player.dead [
  | true ↦ next_alive fuel players rest
  | false ↦ some (id, player)
]

-- Enough for two rounds over the map.
abbrev pub turn_fuel : List (ℕ × Player) → ℕ
turn_fuel players = length players + length players + 2

abbrev pub found_or_hang : Option (ℕ × Player) → Result (ℕ × Player)
found_or_hang none = fault hang
found_or_hang (some entry) = ok entry

-- `it = players.find(currentPlayerTurn); it++;` and the loop.
unfoldable pub choose_next : ℕ → List (ℕ × Player) → Result (ℕ × Player)
choose_next current players = elim (StdMap.find current players) [
  | [] ↦ fault invalid_iterator
  | _ ∷ rest ↦ found_or_hang (next_alive (turn_fuel players) players rest)
]

unfoldable pub lift : {A : Type 0} → Result A → M Server A
lift r s = elim r [ fault e ↦ fault e | ok a ↦ ok (a, s) ]

abbrev pub alive_count : List (ℕ × Player) → ℕ
alive_count = count_if (λ entry. not entry.1.dead)

module _ (net : RakNet) where
  unfoldable pub game_over : ℕ → M Server (Unit {0})
  game_over winner_id = do
    modify (λ s. record s { game_state = gs_game_over })
    player ← get_player winner_id
    broadcast_message (snprintf 256 (player.name ++ codes " wins!"))
    emit (
        send (net.to_bytes (net.byte_bits s_update_game_state ++ net.byte_bits gs_game_over))
          everyone)

  unfoldable pub next_turn : M Server (Unit {0})
  next_turn = do
    s ← get
    (id, player) ← lift (choose_next s.current_player_turn s.players)
    modify (λ s. record s { current_player_turn = id })
    if alive_count s.players == 1 then game_over id else (do
      broadcast_message (snprintf 256 (player.name ++ codes "'s turn"))
      send_turn net id)
