-- ===== src/Session/Lobby/Starts.antt =====
-- RRPG Server/server.cpp: from the first client that is ready to the selection of characters.
use mathlib.Core.Path.{subst}
use rrpg.Common.{
  inl, ℕ, ◌==◌, true, false, ◌&&◌, List, [], ◌∷◌, ◌++◌, some, ◌≡◌, sym, ap, ◌∙◌, ok, arith, All,
  ==_refl, codes,
}
use rrpg.RakNet.{RakNet, RakNetLaws, Packet, Effect, send, to, everyone, print}
use rrpg.Protocol.{Player, gs_character_select, s_take_turn, s_game_started}
use rrpg.StdMap
use rrpg.StdMap.{keys}
use rrpg.StdMap.Order.{has_key, lookup-has_key, keys-adjust, All-lookup}
use rrpg.Server.{Server, is_running, ns_game_started, expected_players}
use rrpg.Server.Invariant.{Inv, IsWellFormed}
use rrpg.Server.Handlers.{sender, all_ready, set_ready}
use rrpg.Server.Handlers.Ready.{none_ready, can_start, readied, on_player_ready_starts}
use rrpg.Server.Dispatch.{handle_packet, run}
use rrpg.Server.Dispatch.Run.{packets_of, run_receive, run_last}
use rrpg.Session.Lobby.Waits.{
  has_key-middle, ready-Inv, ready-waits, said-told, told, told_all, told_all-found, ready_all,
  waits_run,
}
use rrpg.Session.Lobby.{
  IsReady, IsDistinct, AreWaiting, OthersReady, make_ready, AreWaiting-make_ready,
  OthersReady-make_ready, all_ready-OthersReady, none_ready-make_ready, ready_handled,
}

none_ready-keys :
    (id : ℕ) (ids : List ℕ) (players : List (ℕ × Player))
    → keys players ≡ id ∷ ids
    → (first : Player) × (rest : List (ℕ × Player)) × (none_ready players ≡ (id, first) ∷ rest)
unfolding StdMap.for_each
none_ready-keys id ids [] h = ground arith
none_ready-keys id ids ((j, player) ∷ players) h = (
  record player { ready = false },
  none_ready players,
  ap (λ k. (k, record player { ready = false }) ∷ none_ready players) (ground arith),
)

-- The selection of characters begins: nobody is ready, and the first player alone is asked.
abbrev pub selecting : RakNet → ℕ → ℕ → List (ℕ × Player) → List Effect → Server → Server
selecting net id address players out s = record s {
  network_state = ns_game_started;
  game_state = gs_character_select;
  players = none_ready players;
  current_player_turn = id;
  out =
      send (net.to_bytes (net.byte_bits s_take_turn)) (to address)
      ∷ send (net.to_bytes (net.byte_bits s_game_started)) everyone
      ∷ print (codes "Internal: Game has started.\n")
      ∷ out;
}

module _ (net : RakNet) (laws : RakNetLaws net) (p : Packet) (k : ℕ) (s : Server)
    (ready : IsReady net p k) (player : Player) (found : StdMap.lookup k s.players ≡ some player)
    (inv : Inv s) where
  known : StdMap.lookup (sender net p) s.players ≡ some player
  known = ap (λ id. StdMap.lookup id s.players) ready.from ∙ found

  well_formed : IsWellFormed player
  well_formed = All-lookup (λ e. IsWellFormed e.1) k s.players player found inv.well_formed

  ready_starts :
      (id address : ℕ) (ids : List ℕ)
      → all_ready (make_ready k s.players) ≡ true
      → s.total_connections ≡ expected_players
      → keys s.players ≡ id ∷ ids
      → StdMap.lookup id s.player_addresses ≡ some address
      → handle_packet net p s ≡ ok (tt, selecting net id address s.players (told player s.out) s)
  ready_starts id address ids all_of_them full first_id there =
      let (first, rest, begins) = none_ready-keys id ids s.players first_id in
      let reset : none_ready (make_ready (sender net p) s.players) ≡ none_ready s.players =
        none_ready-make_ready (sender net p) s.players in
      ready_handled net laws p k s ready
      ∙ on_player_ready_starts net p s player known well_formed.short id address first rest
          (ap (λ i. can_start (set_ready true i s)) ready.from
            ∙ ap (λ b. b && (s.total_connections == expected_players)) all_of_them
            ∙ ap (λ n. n == expected_players) full)
          (reset ∙ begins) there
      ∙ ap
          (λ m. ok (
            tt,
            record (selecting net id address s.players (readied net p s player).out s) {
              players = m;
            },
          ))
          reset
      ∙ ap (λ t. ok (tt, selecting net id address s.players t.out s))
          (said-told player (set_ready true (sender net p) s))

module _ (net : RakNet) (laws : RakNetLaws net) (packet : ℕ → Packet) (id address : ℕ)
    (ids : List ℕ) where
  -- The last clients, beginning with one, say that they are ready.
  ready_run :
      (k : ℕ) (ks : List ℕ) (s : Server)
      → Inv s
      → is_running s ≡ true
      → s.total_connections ≡ expected_players
      → keys s.players ≡ id ∷ ids
      → StdMap.lookup id s.player_addresses ≡ some address
      → IsDistinct (k ∷ ks)
      → AreWaiting s.players (k ∷ ks)
      → OthersReady (k ∷ ks) s.players
      → All (λ j. IsReady net (packet j) j) (k ∷ ks)
      → run net (packets_of packet (k ∷ ks)) s
        ≡ ok (tt, selecting net id address s.players (told_all (k ∷ ks) s.players s.out) s)
  unfolding is_running
  ready_run k [] s inv running full first_id there distinct waits others packets =
      let (player, found, idle) = waits.0 in
      let starts =
        ready_starts net laws (packet k) k s packets.0 player found inv id address ids
          (all_ready-OthersReady (make_ready k s.players)
            (OthersReady-make_ready k [] s.players inv.sorted others))
          full first_id there in
      run_last net (packet k) s running
      ∙ starts
      ∙ ap (λ out. ok (tt, selecting net id address s.players out s))
          (told_all-found k [] s.players player s.out found)
  ready_run k (j ∷ js) s inv running full first_id there distinct waits others packets =
      let (player, found, idle) = waits.0 in
      let (other, there_is, is_idle) = waits.1.0 in
      let step =
        ready-waits net laws (packet k) k s player packets.0 found inv
          (inl (j, other, has_key-middle k j [] js distinct.0, there_is, is_idle)) in
      let t : Server = record s { players = make_ready k s.players; out = told player s.out } in
      run_receive net (packet k) (packets_of packet (j ∷ js)) s t running step
      ∙ ready_run j js t (ready-Inv k (told player s.out) s inv) running full
          (keys-adjust k (λ q. record q { ready = true }) s.players ∙ first_id) there distinct.1
          (AreWaiting-make_ready k (j ∷ js) s.players distinct.0 waits.1)
          (OthersReady-make_ready k (j ∷ js) s.players inv.sorted others) packets.1
      ∙ ap
          (λ m. ok (
            tt,
            record (selecting net id address s.players
                (told_all (j ∷ js) (make_ready k s.players) (told player s.out)) s) { players = m },
          ))
          (none_ready-make_ready k s.players)
      ∙ ap (λ out. ok (tt, selecting net id address s.players out s))
          (told_all-found k (j ∷ js) s.players player s.out found)

-- The last clients say that they are ready.
pub lobby_run :
    (net : RakNet) (laws : RakNetLaws net) (packet : ℕ → Packet) (s : Server) (id : ℕ)
    (first : Player) (more : List (ℕ × Player)) (k : ℕ) (ks : List ℕ)
    → Inv s
    → is_running s ≡ true
    → s.total_connections ≡ expected_players
    → s.players ≡ (id, first) ∷ more
    → IsDistinct (k ∷ ks)
    → AreWaiting s.players (k ∷ ks)
    → OthersReady (k ∷ ks) s.players
    → All (λ j. IsReady net (packet j) j) (k ∷ ks)
    → (address : ℕ) × (StdMap.lookup id s.player_addresses ≡ some address)
      × (run net (packets_of packet (k ∷ ks)) s
          ≡ ok (tt, selecting net id address s.players (told_all (k ∷ ks) s.players s.out) s))
lobby_run net laws packet s id first more k ks inv running full whole distinct waits others
      packets =
    let first_id = ap keys whole in
    let (address, there) = lookup-has_key id s.player_addresses (
      subst (λ js. has_key id js ≡ true) (sym first_id ∙ inv.same_keys)
        (ground (arith, ==_refl id))) in
    (
      address,
      there,
      ready_run net laws packet id address (keys more) k ks s inv running full first_id there
          distinct waits others packets,
    )

-- The clients that are not ready say so, in any order, each once. Before the last of them, whenever
-- that is, the game has not started: those who have said it are ready, everyone has been told of
-- each, and nothing else has changed or been sent. With the last of them the selection of
-- characters begins: with the same players, none of them ready, and with the turn of the first
-- player of the map, whose address alone gets `S_TAKE_TURN`, behind `S_GAME_STARTED` to everyone.
-- No fault stops the server. It is in a consistent state and runs, as many are connected as the
-- game needs, and all other players are ready.
pub lobby-starts :
    (net : RakNet) (laws : RakNetLaws net) (packet : ℕ → Packet) (s : Server) (id : ℕ)
    (first : Player) (more : List (ℕ × Player)) (early late : List ℕ) (j : ℕ)
    → Inv s
    → is_running s ≡ true
    → s.total_connections ≡ expected_players
    → s.players ≡ (id, first) ∷ more
    → IsDistinct (early ++ j ∷ late)
    → AreWaiting s.players (early ++ j ∷ late)
    → OthersReady (early ++ j ∷ late) s.players
    → All (λ k. IsReady net (packet k) k) (early ++ j ∷ late)
    → (address : ℕ) × (StdMap.lookup id s.player_addresses ≡ some address)
      × (run net (packets_of packet early) s
          ≡ ok (
            tt,
            record s { players = ready_all early s.players; out = told_all early s.players s.out },
          ))
      × (run net (packets_of packet (early ++ j ∷ late)) s
          ≡ ok (
            tt,
            selecting net id address s.players (told_all (early ++ j ∷ late) s.players s.out) s,
          ))
lobby-starts net laws packet s id first more [] late j inv running full whole distinct waits others
      packets =
    let (address, there, starts) =
      lobby_run net laws packet s id first more j late inv running full whole distinct waits others
        packets in
    (
      address,
      there,
      waits_run net laws packet [] late j s inv running distinct waits packets,
      starts,
    )
lobby-starts net laws packet s id first more (k ∷ ks) late j inv running full whole distinct waits
      others packets =
    let (address, there, starts) =
      lobby_run net laws packet s id first more k (ks ++ j ∷ late) inv running full whole distinct
        waits others packets in
    (
      address,
      there,
      waits_run net laws packet (k ∷ ks) late j s inv running distinct waits packets,
      starts,
    )
