-- ===== src/Session/Intro.antt =====
-- `OnConnectionAccepted` on the client and `OnClientIntro` on the server.
use rrpg.Common.{
  ℕ, ◌+◌, ◌≤◌, ◌<◌, fault, out_of_bounds, List, ◌∷◌, ◌++◌, none, some, ◌≡◌, refl, ◌∙◌, ok, ◌>>=◌,
  length, arith, Chars, codes, ==_refl,
}
use rrpg.RakNet.{RakNet, RakNetLaws, Bits, Packet, IsCString, Effect, send, to, print}
use rrpg.Protocol.{Player, c_intro, new_player}
use rrpg.StdMap
use rrpg.StdMap.Order.{IsSorted, lookup-emplace}
use rrpg.Server
use rrpg.Server.Handlers.{sender, payload, on_client_intro}
use rrpg.Server.Handlers.Intro.{
  after_rejection, registered, on_client_intro_fits, on_client_intro_overruns,
}
use rrpg.Client
use rrpg.Client.Packets.{on_connection_accepted}
use rrpg.Session.Wire.{identify_lem, text_lem, server-dispatch}

module _ (net : RakNet) (laws : RakNetLaws net) where
  -- What the client sends about itself.
  abbrev pub intro_rest : Client.Client → Bits
  intro_rest c =
      net.encode_string c.player.name (length c.player.name + 1) ++ net.bool_bits c.player.ready

  pub connection_accepted_sends :
      (q : Packet) (c : Client.Client)
      → on_connection_accepted net q c
        ≡ ok (
          tt,
          record c {
            network_state = Client.ns_lobby;
            out =
                send (net.to_bytes (net.byte_bits c_intro ++ intro_rest c)) (to q.system_address)
                ∷ print Client.lobby_instructions
                ∷ print (codes "Connection accepted!\n")
                ∷ c.out;
          },
        )
  unfolding on_connection_accepted ◌>>=◌ Client.emit Client.print_instructions
  connection_accepted_sends q c = refl

  decoded_name :
      (p : Packet) (c : Client.Client)
      → p.bytes ≡ net.to_bytes (net.byte_bits c_intro ++ intro_rest c)
      → IsCString c.player.name
      → length c.player.name < 256
      → (net.decode_string 256 (payload net p)).0 ≡ c.player.name
  decoded_name p c sent text short =
      text_lem net laws p c_intro (length c.player.name + 1) 256 c.player.name
        (net.bool_bits c.player.ready) sent (omega arith) text (omega arith) (omega arith)

  pub intro_handled :
      (p : Packet) (s : Server.Server) (rest : Bits)
      → p.bytes ≡ net.to_bytes (net.byte_bits c_intro ++ rest)
      → Server.Dispatch.handle_packet net p s ≡ on_client_intro net p s
  intro_handled p s rest sent =
      server-dispatch net p c_intro s
        (identify_lem net laws p c_intro rest sent (omega arith) (omega arith)) (omega arith)
      ∙ to_intro p s
    where
      to_intro :
          (p : Packet) (s : Server.Server)
          → Server.Dispatch.client_packet net c_intro p s ≡ on_client_intro net p s
      to_intro p s = unfold Server.Dispatch.client_packet in refl

  after_rejection-players :
      (p : Packet) (s : Server.Server) → (after_rejection net p s).players ≡ s.players
  after_rejection-players p s = ground arith

  found_new :
      (id : ℕ) (name : Chars) (players : List (ℕ × Player))
      → IsSorted players
      → StdMap.lookup id players ≡ none
      → StdMap.lookup id (StdMap.emplace id (new_player name) players) ≡ some (new_player name)
  found_new id name players sorted fresh =
      rw (lookup-emplace id id (new_player name) players sorted, ==_refl id, fresh)

  -- A client that is accepted introduces itself by a packet that registers it on the server: under
  -- its own name, with full health, not ready and alive. The name has at most 243 characters, and
  -- the server knows no player under the sender's key.
  pub intro-registers :
      (q p : Packet) (c c' : Client.Client) (s : Server.Server) (rest : List Effect)
      → on_connection_accepted net q c ≡ ok (tt, c')
      → c'.out ≡ send p.bytes (to q.system_address) ∷ rest
      → IsCString c.player.name
      → length c.player.name ≤ 243
      → IsSorted s.players
      → StdMap.lookup (sender net p) s.players ≡ none
      → (s' : Server.Server) × (Server.Dispatch.handle_packet net p s ≡ ok (tt, s'))
        × (StdMap.lookup (sender net p) s'.players ≡ some (new_player c.player.name))
  intro-registers q p c c' s rest accepted message text short sorted fresh =
      let sent : p.bytes ≡ net.to_bytes (net.byte_bits c_intro ++ intro_rest c) =
        ground (arith, connection_accepted_sends q c) in
      let name = decoded_name p c sent text (omega (arith, short)) in
      let (out, done) = on_client_intro_fits net p s (rw name short) in
      (
        record (registered net p (after_rejection net p s)) { out = out },
        intro_handled p s (intro_rest c) sent ∙ done,
        rw (name, after_rejection-players p s)
            (found_new (sender net p) c.player.name s.players sorted fresh),
      )

  -- A player whose name has more than 243 and less than 256 characters brings the server down by
  -- connecting, whatever the server's state: the packet with which the client introduces itself
  -- makes the server write past the end of the buffer of the name.
  pub long_name-overruns :
      (q p : Packet) (c c' : Client.Client) (s : Server.Server) (rest : List Effect)
      → on_connection_accepted net q c ≡ ok (tt, c')
      → c'.out ≡ send p.bytes (to q.system_address) ∷ rest
      → IsCString c.player.name
      → 243 < length c.player.name
      → length c.player.name < 256
      → Server.Dispatch.handle_packet net p s ≡ fault out_of_bounds
  long_name-overruns q p c c' s rest accepted message text long short =
      let sent : p.bytes ≡ net.to_bytes (net.byte_bits c_intro ++ intro_rest c) =
        ground (arith, connection_accepted_sends q c) in
      let name = decoded_name p c sent text short in
      intro_handled p s (intro_rest c) sent ∙ on_client_intro_overruns net p s (rw name long)
