-- ===== src/Server/Handlers/Intro.antt =====
-- RRPG Server/server.cpp: `OnClientIntro`, its two maps and the buffer of the name.
use rrpg.Common.{
  ◌+◌, ◌%◌, refl, ◌<◌, ◌≤◌, ◌==◌, ltb, if◌then◌else◌, List, ◌∷◌, ◌++◌, ◌≡◌, ap, ◌∙◌, inl, inr, ok,
  fault, out_of_bounds, ◌>>=◌, ◌>>◌, guard, leb, le→leb, length-take, length, length-append, arith,
  Chars, codes, snprintf, Bool-cases,
}
use rrpg.RakNet.{RakNet, Packet, Effect, close_connection}
use rrpg.Protocol.{new_player}
use rrpg.StdMap
use rrpg.Server.{Server, emit, expected_players}
use rrpg.Server.Broadcast.{broadcast_message}
use rrpg.Server.Broadcast.Outcome.{said, said_same, broadcast_message_fits}
use rrpg.Server.Handlers.{
  waiting_message, sender, payload, reject_surplus, announce_waiting, on_client_intro,
}

module _ (net : RakNet) where
  -- The server closes a surplus connection and counts it off.
  abbrev pub after_rejection : Packet → Server → Server
  after_rejection p s =
      if ltb expected_players s.total_connections
      then record s {
        total_connections = (s.total_connections + 65535) % 65536;
        out = close_connection p.system_address ∷ s.out;
      }
      else s

  reject_surplus_lem :
      (p : Packet) (s : Server) → reject_surplus net p s ≡ ok (tt, after_rejection p s)
  unfolding reject_surplus ◌>>=◌ emit
  reject_surplus_lem p s = ground arith

  -- Everyone is told how many players are missing, unless none is.
  abbrev pub waited : Server → Server
  waited s =
      if s.total_connections == expected_players
      then s
      else said (snprintf 40 (waiting_message s.total_connections)) s

  announce_waiting_lem : (s : Server) → announce_waiting net s ≡ ok (tt, waited s)
  unfolding announce_waiting ◌>>=◌
  announce_waiting_lem s = elim (Bool-cases (s.total_connections == expected_players)) [
    | inl full ↦ rw full refl
    | inr waiting ↦ rw waiting (
        broadcast_message_fits (snprintf 40 (waiting_message s.total_connections)) s
          (omega (arith, length-take 39 (waiting_message s.total_connections))))
  ]

  -- The two maps with the sender added, unless it is there.
  abbrev pub registered : Packet → Server → Server
  registered p s = record s {
    player_addresses = StdMap.emplace (sender net p) p.system_address s.player_addresses;
    players =
        StdMap.emplace (sender net p) (new_player (net.decode_string 256 (payload net p)).0)
          s.players;
  }

  -- The server behind the packet: the sender is in the maps, and everyone is told.
  abbrev pub welcomed : Packet → Server → Server
  welcomed p s = waited (
      said ((net.decode_string 256 (payload net p)).0 ++ codes " has joined.")
        (registered p (after_rejection p s)))

  -- What `OnClientIntro` does behind the two insertions, if the name is short enough.
  intro_end_fits :
      (name : Chars) (t : Server)
      → length name ≤ 243
      → (guard (leb (length name + 13) 256) out_of_bounds
            >> (broadcast_message (name ++ codes " has joined.") >> announce_waiting net))
          t
        ≡ ok (tt, waited (said (name ++ codes " has joined.") t))
  unfolding ◌>>=◌
  intro_end_fits name t short =
      let spoken =
        broadcast_message_fits (name ++ codes " has joined.") t
          (omega (arith, length-append name (codes " has joined."))) in
      rw (le→leb (length name + 13) 256 (omega arith), ◌>>=◌)
        (rw (spoken, ◌>>=◌) (announce_waiting_lem (said (name ++ codes " has joined.") t)))

  pub on_client_intro_welcomes :
      (p : Packet) (s : Server)
      → length (net.decode_string 256 (payload net p)).0 ≤ 243
      → on_client_intro net p s ≡ ok (tt, welcomed p s)
  unfolding on_client_intro ◌>>=◌
  on_client_intro_welcomes p s short =
      rw (reject_surplus_lem p s, ◌>>=◌)
        (intro_end_fits (net.decode_string 256 (payload net p)).0
          (registered p (after_rejection p s)) short)

  waited_same : (s : Server) → waited s ≡ record s { out = (waited s).out }
  waited_same s = elim (Bool-cases (s.total_connections == expected_players)) [
    | inl full ↦ rw full refl
    | inr waiting ↦ rw waiting (said_same (snprintf 40 (waiting_message s.total_connections)) s)
  ]

  -- What the two broadcasts leave behind, beside what is sent.
  pub on_client_intro_fits :
      (p : Packet) (s : Server)
      → length (net.decode_string 256 (payload net p)).0 ≤ 243
      → (out : List Effect) × (on_client_intro net p s
          ≡ ok (tt, record (registered p (after_rejection p s)) { out = out }))
  on_client_intro_fits p s short =
      let text : Chars = (net.decode_string 256 (payload net p)).0 ++ codes " has joined." in
      let t : Server = registered p (after_rejection p s) in
      (
        (welcomed p s).out,
        on_client_intro_welcomes p s short
            ∙ ap (λ u. ok (tt, u)) (waited_same (said text t))
            ∙ ap (λ u. ok (tt, record u { out = (welcomed p s).out })) (said_same text t),
      )

  -- If the decoded name has more than 243 characters, `OnClientIntro` writes past the end of the
  -- name's buffer of 256 bytes, whatever the state.
  pub on_client_intro_overruns :
      (p : Packet) (s : Server)
      → 243 < length (net.decode_string 256 (payload net p)).0
      → on_client_intro net p s ≡ fault out_of_bounds
  unfolding on_client_intro ◌>>=◌
  on_client_intro_overruns p s long = rw (reject_surplus_lem p s, ◌>>=◌) (ground arith)
