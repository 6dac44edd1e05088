-- ===== src/Session/Battle.antt =====
-- `OnPlayerActionTaken`, from a packet of a client to the battle that the players see.
pub mod Names
pub mod Whole
use rrpg.Common.{ℤ, ◌⊎◌, ℕ, ◌<◌, ◌≤◌, some, ◌≡◌, ◌∙◌, ok, Chars, length, arith}
use rrpg.RakNet.{RakNet, RakNetLaws, Packet, IsCString}
use rrpg.Protocol.{Player, gs_game_over}
use rrpg.StdMap
use rrpg.Server.{Server, ns_game_started}
use rrpg.Server.Handlers.{sender, get_player_with_name}
use rrpg.Server.Broadcast.{add_health}
use rrpg.Server.Turn.{alive_count}
use rrpg.Server.Turn.Outcome.{Asks}
use rrpg.Server.Actions.Outcome.{IsEffect, IsModerate}
use rrpg.Server.Actions.Taken.{action_taken_lem}
use rrpg.Server.Invariant.{Inv}
use rrpg.Server.Battle.{Move, view}
use rrpg.Server.Battle.Refines.{hit-Move}
use rrpg.Server.Dispatch.{handle_packet}
use rrpg.Client.Input.{action_bits}
use rrpg.Session.Action.{action_read, action_handled}

-- A packet with which a client takes an action against the player of a name.
pub record IsAction (net : RakNet) (p : Packet) (action : ℕ) (name : Chars) : Type 0 where
  pub sent : p.bytes ≡ net.to_bytes (action_bits net action name)
  pub is_action : action < 4
  pub text : IsCString name
  pub short : length name < 256

-- The move, with the change of the map that makes it.
pub action_lem :
    (net : RakNet) (laws : RakNetLaws net) (p : Packet) (s : Server) (action : ℕ) (name : Chars)
    (origin target : Player) (id : ℕ)
    → IsAction net p action name
    → Inv s
    → s.network_state ≡ ns_game_started
    → 2 ≤ alive_count s.players
    → StdMap.lookup (sender net p) s.players ≡ some origin
    → get_player_with_name name s.players ≡ some id
    → StdMap.lookup id s.players ≡ some target
    → IsModerate target.health
    → (s' : Server) × (diff : ℤ) × (handle_packet net p s ≡ ok (tt, s'))
      × Move action id (view s) (view s')
      × (Asks net s' ⊎ (s'.game_state ≡ gs_game_over))
      × IsEffect action diff
      × (s'.players ≡ StdMap.adjust id (add_health diff) s.players)
action_lem net laws p s action name origin target id taken inv started two known named found
      moderate =
    let (bits, read, decoded) =
      action_read net laws p action name taken.sent (omega (arith, taken.is_action)) taken.text
        taken.short in
    let (t, diff, done, effect, hit) =
      action_taken_lem net p s origin target id action name bits read decoded known named found
        moderate taken.is_action in
    let (s', ended, move, asks, players) =
      hit-Move s id action diff target found inv started two effect t hit net in
    (
      s',
      diff,
      action_handled net laws p action name s taken.sent ∙ done ∙ ended,
      move,
      asks,
      effect,
      players ∙ hit.0,
    )

-- Whatever action a client of the map takes in a running game, the server makes one move of the
-- battle of it: the health of the player who was named changes, by an amount that the action
-- permits, and that player falls with none left; nobody else changes and nobody gets up. Then
-- either the turn passes to another player who stands, and who is not the only one, or, when only
-- one still stands, that player wins and the game is over. Unless it is over, the last thing that
-- the server sends is `S_TAKE_TURN`, to the player whose turn it is. No fault and no endless loop
-- stops the server. It is in a consistent state, at least two players are alive, and no action
-- takes the target's health out of the range of an int.
pub action-Move :
    (net : RakNet) (laws : RakNetLaws net) (p : Packet) (s : Server) (action : ℕ) (name : Chars)
    (origin target : Player) (id : ℕ)
    → IsAction net p action name
    → Inv s
    → s.network_state ≡ ns_game_started
    → 2 ≤ alive_count s.players
    → StdMap.lookup (sender net p) s.players ≡ some origin
    → get_player_with_name name s.players ≡ some id
    → StdMap.lookup id s.players ≡ some target
    → IsModerate target.health
    → (s' : Server) × (handle_packet net p s ≡ ok (tt, s'))
      × Move action id (view s) (view s')
      × (Asks net s' ⊎ (s'.game_state ≡ gs_game_over))
action-Move net laws p s action name origin target id taken inv started two known named found
      moderate =
    let (s', diff, ended, move, asks, effect, players) =
      action_lem net laws p s action name origin target id taken inv started two known named found
        moderate in
    (s', ended, move, asks)
