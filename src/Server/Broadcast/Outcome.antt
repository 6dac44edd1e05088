-- ===== src/Server/Broadcast/Outcome.antt =====
-- What `BroadcastMessage` and `ModifyHealth` leave behind, as equations.
use rrpg.Common.{
  ℕ, ◌≤◌, ◌<◌, ◌==◌, if◌then◌else◌, true, false, ◌∷◌, ◌++◌, some, none, ◌≡◌, ok, fault,
  out_of_bounds, int_overflow, assertion, ◌>>=◌, Chars, codes, length, take, length-take, snprintf,
  ℤ, ◌+ℤ◌, fits_int32, arith,
}
use rrpg.RakNet.{RakNet, send, print, everyone, to}
use rrpg.Protocol.{Player, s_take_turn}
use rrpg.StdMap
use rrpg.Server.{Server, emit, get_player, get_address_from_id}
use rrpg.Server.Broadcast.{
  text_bytes, server_prefix, broadcast_message, send_turn, health_packet, add_health, health_line,
  modify_health,
}

-- The state with one more message to everyone, unless the text is empty.
abbrev pub said : Chars → Server → Server
said input s = if length input == 0 then s else record s {
  out =
      send (text_bytes (server_prefix ++ input)) everyone
      ∷ print (codes "Broadcast: " ++ (server_prefix ++ (input ++ codes "\n")))
      ∷ s.out;
}

-- A broadcast changes `out` alone.
pub said_same : (text : Chars) (s : Server) → said text s ≡ record s { out = (said text s).out }
said_same text s = ground arith

pub said-player_addresses :
    (input : Chars) (s : Server) → (said input s).player_addresses ≡ s.player_addresses
said-player_addresses input s = ground arith

pub broadcast_message_fits :
    (input : Chars) (s : Server)
    → length input ≤ 2047
    → broadcast_message input s ≡ ok (tt, said input s)
unfolding broadcast_message ◌>>=◌ emit
broadcast_message_fits input s h = ground arith

pub broadcast_message_overruns :
    (input : Chars) (s : Server)
    → 2047 < length input
    → broadcast_message input s ≡ fault out_of_bounds
unfolding broadcast_message ◌>>=◌ emit
broadcast_message_overruns input s h = ground arith

-- A message that was formatted into a buffer of at most 2048 bytes fits.
pub length-take_le : (size : ℕ) (text : Chars) → length (take size text) ≤ size
length-take_le size text = omega (arith, length-take size text)

pub broadcast-snprintf :
    (text : Chars) (s : Server)
    → broadcast_message (snprintf 256 text) s ≡ ok (tt, said (snprintf 256 text) s)
broadcast-snprintf text s =
    broadcast_message_fits (snprintf 256 text) s (omega (arith, length-take_le 255 text))

module _ (net : RakNet) where
  pub send_turn_lem :
      (id address : ℕ) (s : Server)
      → StdMap.lookup id s.player_addresses ≡ some address
      → send_turn net id s
        ≡ ok (
          tt,
          record s { out = send (net.to_bytes (net.byte_bits s_take_turn)) (to address) ∷ s.out },
        )
  unfolding send_turn ◌>>=◌ emit get_address_from_id
  send_turn_lem id address s h = ground arith

  pub modify_health_fits :
      (id : ℕ) (player : Player) (diff : ℤ) (s : Server)
      → StdMap.lookup id s.players ≡ some player
      → fits_int32 (player.health +ℤ diff) ≡ true
      → modify_health net id diff s
        ≡ ok (
          tt,
          record s {
            players = StdMap.adjust id (add_health diff) s.players;
            out =
                send (health_packet net (add_health diff player)) everyone
                ∷ print (health_line (add_health diff player))
                ∷ s.out;
          },
        )
  unfolding modify_health ◌>>=◌ emit get_player
  modify_health_fits id player diff s found fits = ground arith

  pub modify_health_overflows :
      (id : ℕ) (player : Player) (diff : ℤ) (s : Server)
      → StdMap.lookup id s.players ≡ some player
      → fits_int32 (player.health +ℤ diff) ≡ false
      → modify_health net id diff s ≡ fault int_overflow
  unfolding modify_health ◌>>=◌ emit get_player
  modify_health_overflows id player diff s found fits = ground arith

  pub modify_health_missing :
      (id : ℕ) (diff : ℤ) (s : Server)
      → StdMap.lookup id s.players ≡ none
      → modify_health net id diff s ≡ fault assertion
  unfolding modify_health ◌>>=◌ emit get_player
  modify_health_missing id diff s missing = ground arith
