-- ===== src/Session/Join.antt =====
-- RRPG Server/server.cpp: clients that connect and introduce themselves, one after the other.
pub mod Players
use rrpg.Common.{
  ℕ, ◌+◌, ◌<◌, ◌≤◌, ◌==◌, Bool, true, false, List, [], ◌∷◌, ◌++◌, some, none, ◌≡◌, refl, sym, ap,
  ◌∙◌, ok, ◌>>=◌, arith, All, Chars, length, codes,
}
use rrpg.RakNet.{RakNet, RakNetLaws, Packet, Effect, IsCString, print}
use rrpg.RakNet.MessageIds.{id_new_incoming_connection}
use rrpg.Protocol.{Player, new_player, c_intro, get_packet_identifier}
use rrpg.StdMap
use rrpg.Server.Turn.{lift}
use rrpg.Server.{Server, emit, is_running, expected_players}
use rrpg.Server.Handlers.{sender, payload, u16, on_incoming_connection}
use rrpg.Server.Handlers.Intro.{registered, after_rejection, on_client_intro_fits}
use rrpg.Server.Dispatch.{
  Event, receive, handle_packet, is_low_level_packet_handled, low_level, run,
}
use rrpg.Server.Dispatch.Run.{run_receive}
use rrpg.Session.Wire.{text_lem}
use rrpg.Session.Intro.{intro_handled}

-- The two packets with which the client of a key joins: RakNet's, for the connection, and its own,
-- with its name.
pub record IsJoining (net : RakNet) (arrival intro : Packet) (id : ℕ) (name : Chars) : Type 0 where
  pub arrives : get_packet_identifier arrival ≡ ok id_new_incoming_connection
  pub from : sender net intro ≡ id
  pub sent :
      intro.bytes
      ≡ net.to_bytes (
          net.byte_bits c_intro
          ++ (net.encode_string name (length name + 1) ++ net.bool_bits false))
  pub text : IsCString name
  pub short : length name ≤ 243

-- The packets of the clients that join, in that order.
abbrev pub joins : (ℕ → Packet) → (ℕ → Packet) → List ℕ → List Event
joins arrival intro [] = []
joins arrival intro (k ∷ ks) = receive (arrival k) ∷ (receive (intro k) ∷ joins arrival intro ks)

-- The entries that they add.
abbrev pub joined_players : (ℕ → Chars) → List ℕ → List (ℕ × Player) → List (ℕ × Player)
joined_players names [] players = players
joined_players names (k ∷ ks) players =
    joined_players names ks (StdMap.emplace k (new_player (names k)) players)

abbrev pub joined_addresses : (ℕ → Packet) → List ℕ → List (ℕ × ℕ) → List (ℕ × ℕ)
joined_addresses intro [] addresses = addresses
joined_addresses intro (k ∷ ks) addresses =
    joined_addresses intro ks (StdMap.emplace k (intro k).system_address addresses)

module _ (net : RakNet) (laws : RakNetLaws net) where
  arrival_step :
      (p : Packet) (s : Server)
      → get_packet_identifier p ≡ ok id_new_incoming_connection
      → handle_packet net p s
        ≡ ok (
          tt,
          record s {
            total_connections = u16 (s.total_connections + 1);
            out = print (codes "ID_REMOTE_NEW_INCOMING_CONNECTION\n") ∷ s.out;
          },
        )
  unfolding handle_packet is_low_level_packet_handled low_level ◌>>=◌ lift emit
      on_incoming_connection
  arrival_step p s arrives = rw (arrives, ◌>>=◌) refl

  intro_step :
      (arrival p : Packet) (k : ℕ) (name : Chars) (s : Server)
      → IsJoining net arrival p k name
      → s.total_connections ≤ expected_players
      → (out : List Effect) × (handle_packet net p s
          ≡ ok (
            tt,
            record s {
              players = StdMap.emplace k (new_player name) s.players;
              player_addresses = StdMap.emplace k p.system_address s.player_addresses;
              out = out;
            },
          ))
  intro_step arrival p k name s joining room =
      let decoded : (net.decode_string 256 (payload net p)).0 ≡ name =
        text_lem net laws p c_intro (length name + 1) 256 name (net.bool_bits false) joining.sent
          (omega arith) joining.text (omega arith) (omega (arith, joining.short)) in
      let (out, fits) = on_client_intro_fits net p s (rw decoded joining.short) in
      let stays : after_rejection net p s ≡ s = ground (arith, room) in
      (
        out,
        intro_handled net laws p s _ joining.sent
            ∙ fits
            ∙ ap (λ t. ok (tt, record (registered net p t) { out = out })) stays
            ∙ ap
                (λ n. ok (
                  tt,
                  record s {
                    players = StdMap.emplace (sender net p) (new_player n) s.players;
                    player_addresses =
                        StdMap.emplace (sender net p) p.system_address s.player_addresses;
                    out = out;
                  },
                ))
                decoded
            ∙ ap
                (λ j. ok (
                  tt,
                  record s {
                    players = StdMap.emplace j (new_player name) s.players;
                    player_addresses = StdMap.emplace j p.system_address s.player_addresses;
                    out = out;
                  },
                ))
                joining.from,
      )

  -- Clients that join while there is room for all of them.
  pub join_run :
      (arrival intro : ℕ → Packet) (names : ℕ → Chars) (ks : List ℕ) (s : Server)
      → is_running s ≡ true
      → s.total_connections + length ks ≤ expected_players
      → All (λ k. IsJoining net (arrival k) (intro k) k (names k)) ks
      → (out : List Effect) × (run net (joins arrival intro ks) s
          ≡ ok (
            tt,
            record s {
              total_connections = s.total_connections + length ks;
              players = joined_players names ks s.players;
              player_addresses = joined_addresses intro ks s.player_addresses;
              out = out;
            },
          ))
  unfolding run is_running
  join_run arrival intro names [] s running room joining =
      (s.out, ap (λ n. ok (tt, record s { total_connections = n })) (omega arith))
  join_run arrival intro names (k ∷ ks) s running room joining =
      let n = s.total_connections in
      let count : u16 (n + 1) ≡ n + 1 = omega (arith, room) in
      let arrived : Server = record s {
        total_connections = u16 (n + 1);
        out = print (codes "ID_REMOTE_NEW_INCOMING_CONNECTION\n") ∷ s.out;
      } in
      let (out, introduced) =
        intro_step (arrival k) (intro k) k (names k) arrived joining.0
          (omega (arith, room, count)) in
      let now : Server = record arrived {
        players = StdMap.emplace k (new_player (names k)) s.players;
        player_addresses = StdMap.emplace k (intro k).system_address s.player_addresses;
        out = out;
      } in
      let (last, goes_on) =
        join_run arrival intro names ks now running (omega (arith, room, count)) joining.1 in
      (
        last,
        run_receive net (arrival k) (receive (intro k) ∷ joins arrival intro ks) s arrived running
              (arrival_step (arrival k) s joining.0.arrives)
            ∙ run_receive net (intro k) (joins arrival intro ks) arrived now running introduced
            ∙ goes_on
            ∙ ap
                (λ total. ok (
                  tt,
                  record s {
                    total_connections = total;
                    players = joined_players names (k ∷ ks) s.players;
                    player_addresses = joined_addresses intro (k ∷ ks) s.player_addresses;
                    out = last;
                  },
                ))
                (omega (arith, count)),
      )
