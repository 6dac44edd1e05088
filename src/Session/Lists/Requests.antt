-- ===== src/Session/Lists/Requests.antt =====
-- The requests of the player list and of the statistics: the line that is typed, the packet that it
-- sends, the server's reply, and what the client prints of it.
use mathlib.Core.List.{append-nil}
use rrpg.Common.{
  ℕ, ◌<◌, List, [], ◌∷◌, ◌≡◌, ◌≢◌, refl, sym, ap, ◌∙◌, ok, ◌>>=◌, length, arith, Chars, codes, map,
  to_lower,
}
use rrpg.RakNet.{RakNet, RakNetLaws, Packet, send, to}
use rrpg.Protocol.{get_packet_identifier, c_player_list_request, c_player_stats_request}
use rrpg.Server
use rrpg.Server.Game.{list_packet, stats_packet}
use rrpg.Server.Handlers.{on_player_list_request, on_player_stats_request}
use rrpg.Server.Invariant.{Inv}
use rrpg.Client
use rrpg.Client.Input.{
  handle_input, round_in, handle_lobby_input, game_round, request_players_from_server,
  request_player_stats_from_server,
}
use rrpg.Session.Lists.{listed, stats_listed, list-printed, stats-printed}
use rrpg.Session.Wire.{identify_lem, server-dispatch}

-- A packet with no more than its identifier.
abbrev bare : RakNet → ℕ → List ℕ
bare net id = net.to_bytes (net.byte_bits id)

-- The client once it has asked.
abbrev asked : RakNet → ℕ → Client.Client → Client.Client
asked net id c = record c { out = Client.to_server net (bare net id) ∷ c.out }

-- The bytes of a packet, as they arrive from a guid and an address.
abbrev pub arrived : ℕ → ℕ → List ℕ → Packet
arrived guid address bytes = record { guid = guid; system_address = address; bytes = bytes }

module _ (net : RakNet) where
  lobby_asks :
      (line : Chars) (c : Client.Client)
      → map to_lower line ≡ codes ".players"
      → c.network_state ≡ Client.ns_lobby
      → handle_input net line c ≡ ok (tt, asked net c_player_list_request c)
  unfolding handle_input round_in handle_lobby_input request_players_from_server Client.emit ◌>>=◌
  lobby_asks line c words waiting = rw (words, waiting, handle_input, ◌>>=◌, round_in) refl

  game_asks :
      (line : Chars) (c : Client.Client)
      → map to_lower line ≡ codes ".stats"
      → c.network_state ≡ Client.ns_game_started
      → handle_input net line c ≡ ok (tt, asked net c_player_stats_request c)
  unfolding handle_input round_in game_round request_player_stats_from_server Client.emit ◌>>=◌
  game_asks line c words playing = rw (words, playing, handle_input, ◌>>=◌, round_in) refl

  to_list :
      (p : Packet) (s : Server.Server)
      → Server.Dispatch.client_packet net c_player_list_request p s
        ≡ ok (tt, record s { out = send (list_packet net s.players) (to p.system_address) ∷ s.out })
  unfolding Server.Dispatch.client_packet on_player_list_request Server.emit ◌>>=◌
  to_list p s = refl

  to_stats :
      (p : Packet) (s : Server.Server)
      → Server.Dispatch.client_packet net c_player_stats_request p s
        ≡ ok
            (tt, record s { out = send (stats_packet net s.players) (to p.system_address) ∷ s.out })
  unfolding Server.Dispatch.client_packet on_player_stats_request Server.emit ◌>>=◌
  to_stats p s = refl

module _ (net : RakNet) (laws : RakNetLaws net) where
  bare-identify :
      (p : Packet) (id : ℕ)
      → p.bytes ≡ bare net id
      → id < 256
      → id ≢ 27
      → get_packet_identifier p ≡ ok id
  bare-identify p id sent h other =
      identify_lem net laws p id [] (sent ∙ ap net.to_bytes (sym (append-nil (net.byte_bits id)))) h
        other

  -- Who types ".players" in the lobby, in any case, is shown the players that the server knows: the
  -- line sends one packet to the server, which changes nothing there and is answered by one packet
  -- to its sender alone; that makes the client, whatever happened to it meanwhile, print the
  -- server's players in order, numbered from 1, with their names and whether they are ready, and
  -- changes nothing else of it. The server is in a state that its invariant allows, with fewer than
  -- 2 ^ 31 - 1 players.
  pub players_request-answered :
      (line : Chars) (c d : Client.Client) (s : Server.Server)
      (guid address server_guid server_address : ℕ)
      → map to_lower line ≡ codes ".players"
      → c.network_state ≡ Client.ns_lobby
      → Inv s
      → length s.players < 2147483647
      → (request reply : List ℕ) × (handle_input net line c
          ≡ ok (tt, record c { out = Client.to_server net request ∷ c.out }))
        × (Server.Dispatch.handle_packet net (arrived guid address request) s
            ≡ ok (tt, record s { out = send reply (to address) ∷ s.out }))
        × (Client.Dispatch.handle_packet net (arrived server_guid server_address reply) d
            ≡ ok (tt, record d { out = listed 1 s.players d.out }))
  players_request-answered line c d s guid address server_guid server_address words waiting inv
        few =
      let request : List ℕ = bare net c_player_list_request in
      let p : Packet = arrived guid address request in
      (
        request,
        list_packet net s.players,
        lobby_asks net line c words waiting,
        server-dispatch net p c_player_list_request s
              (bare-identify p c_player_list_request refl (omega arith) (omega arith)) (omega arith)
            ∙ to_list net p s,
        list-printed net laws (arrived server_guid server_address (list_packet net s.players))
            s.players d refl inv.well_formed few,
      )

  -- Who types ".stats" during the game, in any case and also out of turn, is shown the statistics
  -- that the server has: the line sends one packet to the server, which changes nothing there and is
  -- answered by one packet to its sender alone; that makes the client, whatever happened to it
  -- meanwhile, print the server's players in order, numbered from 1, with their names, classes and
  -- health, and changes nothing else of it. The server is in a state that its invariant allows,
  -- with fewer than 2 ^ 31 - 1 players.
  pub stats_request-answered :
      (line : Chars) (c d : Client.Client) (s : Server.Server)
      (guid address server_guid server_address : ℕ)
      → map to_lower line ≡ codes ".stats"
      → c.network_state ≡ Client.ns_game_started
      → Inv s
      → length s.players < 2147483647
      → (request reply : List ℕ) × (handle_input net line c
          ≡ ok (tt, record c { out = Client.to_server net request ∷ c.out }))
        × (Server.Dispatch.handle_packet net (arrived guid address request) s
            ≡ ok (tt, record s { out = send reply (to address) ∷ s.out }))
        × (Client.Dispatch.handle_packet net (arrived server_guid server_address reply) d
            ≡ ok (tt, record d { out = stats_listed 1 s.players d.out }))
  stats_request-answered line c d s guid address server_guid server_address words playing inv few =
      let request : List ℕ = bare net c_player_stats_request in
      let p : Packet = arrived guid address request in
      (
        request,
        stats_packet net s.players,
        game_asks net line c words playing,
        server-dispatch net p c_player_stats_request s
              (bare-identify p c_player_stats_request refl (omega arith) (omega arith))
              (omega arith)
            ∙ to_stats net p s,
        stats-printed net laws (arrived server_guid server_address (stats_packet net s.players))
            s.players d refl inv.well_formed few,
      )
