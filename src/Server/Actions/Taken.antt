-- ===== src/Server/Actions/Taken.antt =====
-- RRPG Server/server.cpp: `OnPlayerActionTaken` from the packet to the next turn.
use rrpg.Common.{ℕ, ◌<◌, some, ◌≡◌, ◌>>=◌, Chars, ℤ}
use rrpg.RakNet.{RakNet, Bits, Packet}
use rrpg.Protocol.{Player}
use rrpg.StdMap
use rrpg.Server.{Server, get_player}
use rrpg.Server.Turn.{next_turn}
use rrpg.Server.Handlers.{sender, payload, get_player_with_name}
use rrpg.Server.Actions.{read_byte_into, or_assert, on_player_action_taken}
use rrpg.Server.Actions.Outcome.{IsEffect, IsHit, IsModerate, perform_lem}

module _ (net : RakNet) where
  read_byte_into_lem :
      (bits rest : Bits) (b : ℕ)
      → net.read_byte bits ≡ some (b, rest)
      → read_byte_into net bits ≡ (some b, rest)
  read_byte_into_lem bits rest b read = rw (read, read_byte_into)

  -- A packet with an action and the name of a player changes that player's health by a permitted
  -- amount, and then the turn goes on.
  pub action_taken_lem :
      (p : Packet) (s : Server) (origin target : Player) (id action : ℕ) (name : Chars)
      (rest : Bits)
      → net.read_byte (payload net p) ≡ some (action, rest)
      → (net.decode_string 256 rest).0 ≡ name
      → StdMap.lookup (sender net p) s.players ≡ some origin
      → get_player_with_name name s.players ≡ some id
      → StdMap.lookup id s.players ≡ some target
      → IsModerate target.health
      → action < 4
      → (t : Server) × (diff : ℤ) × (on_player_action_taken net p s ≡ next_turn net t)
        × IsEffect action diff
        × IsHit id diff s t
  unfolding on_player_action_taken ◌>>=◌ get_player
  action_taken_lem p s origin target id action name rest read decoded known chosen found moderate
        h =
      let (t, diff, ran, effect, hit) =
        perform_lem net origin target target id s found moderate action h in
      let bytes_read : read_byte_into net (payload net p) ≡ (some action, rest) =
        read_byte_into_lem (payload net p) rest action read in
      (
        t,
        diff,
        rw (known, ◌>>=◌, get_player)
            (rw (bytes_read, decoded)
              (rw (chosen, or_assert, ◌>>=◌) (rw (found, ◌>>=◌, get_player) (rw (ran, ◌>>=◌))))),
        effect,
        hit,
      )
