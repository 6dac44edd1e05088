-- ===== src/Session/Opening/Whole.antt =====
-- RRPG Server/server.cpp: from the constructor to the first turn of the main game.
use mathlib.Core.Path.{subst}
use rrpg.Common.{
  ℕ, ◌+◌, ◌<◌, if◌then◌else◌, true, false, not, List, [], ◌∷◌, ◌++◌, some, none, ◌≡◌, refl, sym, ap,
  ◌∙◌, ok, arith, All, Chars, length, inr,
}
use rrpg.RakNet.{RakNet, RakNetLaws, Packet, Effect}
use rrpg.Protocol.{Player, new_player, gs_main, gs_character_select}
use rrpg.StdMap
use rrpg.StdMap.{keys}
use rrpg.StdMap.Order.{has_key, keys-for_each, All-for_each}
use rrpg.Server.{Server, construct, is_running, ns_game_started, expected_players}
use rrpg.Server.Invariant.{Inv}
use rrpg.Server.Handlers.Ready.{none_ready}
use rrpg.Server.Dispatch.{Event, run}
use rrpg.Server.Dispatch.Run.{packets_of, run_then}
use rrpg.Session.Join.{IsJoining, joins, joined_players, joined_addresses, join_run}
use rrpg.Session.Join.Players.{All-has_key}
use rrpg.Session.Lobby.{IsReady, IsDistinct}
use rrpg.Session.Lobby.Starts.{lobby_run}
use rrpg.Session.Selection.{assign, with_class, IsChoice}
use rrpg.Session.Selection.Ends.{selection-ends}
use rrpg.Session.Opening.{
  idle, keys-assign, count_alive, length-none_ready, ended-Inv, joined-has_key, lookup-order,
  length-order, some_player, lookup-chosen,
}

-- The packets of the clients: they join and are ready in one order, and choose in that of the keys.
abbrev pub opening :
    (ℕ → Packet) → (ℕ → Packet) → (ℕ → Packet) → (ℕ → Packet) → (ℕ → Chars) → List ℕ → List Event
opening arrival intro ready choice names order =
    (joins arrival intro order ++ packets_of ready order)
    ++ packets_of choice (keys (joined_players names order []))

module _ (net : RakNet) (laws : RakNetLaws net) (memory : Server)
    (arrival intro ready choice : ℕ → Packet) (names : ℕ → Chars) (jobs : ℕ → ℕ) where
  -- The server once all have joined, and then once all are ready.
  abbrev full : List ℕ → List Effect → Server
  full order out = record (construct memory) {
    total_connections = memory.total_connections + length order;
    players = joined_players names order [];
    player_addresses = joined_addresses intro order [];
    out = out;
  }

  abbrev selecting : List ℕ → ℕ → List Effect → Server
  selecting order id out = record (full order out) {
    network_state = ns_game_started;
    game_state = gs_character_select;
    players = none_ready (joined_players names order []);
    current_player_turn = id;
  }

  clients_join :
      (order : List ℕ)
      → memory.total_connections ≡ 0
      → memory.is_quitting ≡ false
      → length order ≡ expected_players
      → All (λ k. IsJoining net (arrival k) (intro k) k (names k)) order
      → (out : List Effect) × (run net (joins arrival intro order) (construct memory)
          ≡ ok (tt, full order out))
  unfolding construct is_running
  clients_join order empty stays count joining =
      join_run net laws arrival intro names order (construct memory) (ap not stays)
        (omega (arith, empty, count)) joining

  clients_ready :
      (k : ℕ) (ks : List ℕ) (out : List Effect) (id : ℕ) (first : Player) (more : List (ℕ × Player))
      → memory.total_connections ≡ 0
      → memory.is_quitting ≡ false
      → length (k ∷ ks) ≡ expected_players
      → IsDistinct (k ∷ ks)
      → All (λ k. IsReady net (ready k) k) (k ∷ ks)
      → Inv (full (k ∷ ks) out)
      → joined_players names (k ∷ ks) [] ≡ (id, first) ∷ more
      → (out' : List Effect) × (run net (packets_of ready (k ∷ ks)) (full (k ∷ ks) out)
          ≡ ok (tt, selecting (k ∷ ks) id out'))
  unfolding construct is_running new_player
  clients_ready k ks out id first more empty stays count distinct readies inv whole =
      let (address, there, started) =
        lobby_run net laws ready (full (k ∷ ks) out) id first more k ks inv (ap not stays)
          (omega (arith, empty, count)) whole distinct
          (All-has_key _ (k ∷ ks)
            (λ j h. (new_player (names j), lookup-order names (k ∷ ks) j ∙ rw h refl, refl)))
          (joined-has_key names (k ∷ ks) _ (λ j h. inr h)) readies in
      (_, started)

  clients_choose :
      (order : List ℕ) (out : List Effect) (id : ℕ) (first : Player) (more : List (ℕ × Player))
      → memory.is_quitting ≡ false
      → length order ≡ expected_players
      → IsDistinct order
      → ((k : ℕ) → has_key k order ≡ true → IsChoice net (choice k) k (jobs k))
      → Inv (selecting order id out)
      → joined_players names order [] ≡ (id, first) ∷ more
      → (s : Server) × (run net
            (packets_of choice (keys (joined_players names order [])))
            (selecting order id out)
          ≡ ok (tt, s))
        × (s.players ≡ assign jobs (none_ready (joined_players names order [])))
        × (s.game_state ≡ gs_main)
        × (s.current_player_turn ≡ id)
  unfolding construct is_running new_player StdMap.for_each
  clients_choose order out id first more stays count distinct chooses inv whole =
      let M = joined_players names order [] in
      let alive : All (λ e. e.1.dead ≡ false) M = joined-has_key names order _ (λ k h. refl) in
      let still : All (λ e. e.1.dead ≡ false) (none_ready M) =
        All-for_each _ idle M (λ k player h. h) alive in
      let lives : first.dead ≡ false = (subst (All (λ e. e.1.dead ≡ false)) whole alive).0 in
      let number =
        count_alive (none_ready M) still
        ∙ length-none_ready M
        ∙ length-order names order distinct in
      let (s, address, before, ended, players, state, turn, there, sent) =
        selection-ends net laws choice jobs (selecting order id out) id (idle first)
          (none_ready more) inv (ap not stays) (ap none_ready whole) refl lives
          (λ single. omega (arith, number, single, count))
          (All-for_each (λ e. IsChoice net (choice e.0) e.0 (jobs e.0)) idle M (λ k player h. h)
            (joined-has_key names order (λ e. IsChoice net (choice e.0) e.0 (jobs e.0)) chooses)) in
      (
        s,
        ap (λ ks. run net (packets_of choice ks) (selecting order id out))
              (sym (keys-for_each idle M))
            ∙ ended,
        players,
        state,
        turn,
      )

  -- Three clients that connect, introduce themselves, say that they are ready, and choose a class,
  -- each in its turn, start the main game on a new server: no fault stops it, the game
  -- is in its main state, the turn is that of the first player of the map, and the players are
  -- the three clients, each under its own name, with full health, alive, ready and of the class
  -- that it chose. Their keys differ, in any order, no name has more than 243 characters, and the
  -- memory that the server takes holds no connection and no wish to quit.
  pub session-opens :
      (order : List ℕ)
      → memory.total_connections ≡ 0
      → memory.is_quitting ≡ false
      → length order ≡ expected_players
      → IsDistinct order
      → All (λ k. IsJoining net (arrival k) (intro k) k (names k)) order
      → All (λ k. IsReady net (ready k) k) order
      → ((k : ℕ) → has_key k order ≡ true → IsChoice net (choice k) k (jobs k))
      → (s : Server) × (later : List ℕ) × (run net
            (opening arrival intro ready choice names order)
            (construct memory)
          ≡ ok (tt, s))
        × (s.game_state ≡ gs_main)
        × (keys s.players ≡ s.current_player_turn ∷ later)
        × ((k : ℕ)
            → StdMap.lookup k s.players ≡ (
                if has_key k order
                then some (with_class (jobs k) (new_player (names k)))
                else none))
  session-opens [] empty stays count distinct joining readies chooses = absurd (omega arith)
  session-opens (k ∷ ks) empty stays count distinct joining readies chooses =
      let order = k ∷ ks in
      let M = joined_players names order [] in
      let small : memory.total_connections < 65536 = omega (arith, empty) in
      let (out, joined) = clients_join order empty stays count joining in
      let inv =
        ended-Inv net laws memory (full order out) (joins arrival intro order) small joined in
      let (id, first, more, whole) = some_player names order count distinct in
      let (out', readied) =
        clients_ready k ks out id first more empty stays count distinct readies inv whole in
      let lobby = joins arrival intro order ++ packets_of ready order in
      let in_lobby =
        run_then net (joins arrival intro order) (packets_of ready order) (construct memory)
          (full order out) joined
        ∙ readied in
      let (s, chosen, players, state, turn) =
        clients_choose order out' id first more stays count distinct chooses
          (ended-Inv net laws memory (selecting order id out') lobby small in_lobby) whole in
      (
        s,
        keys more,
        run_then net lobby (packets_of choice (keys M)) (construct memory) (selecting order id out')
              in_lobby
            ∙ chosen,
        state,
        ap keys players
            ∙ keys-assign jobs (none_ready M)
            ∙ keys-for_each idle M
            ∙ ap keys whole
            ∙ ap (λ j. j ∷ keys more) (sym turn),
        λ j. ap (StdMap.lookup j) players ∙ lookup-chosen names order jobs j,
      )
