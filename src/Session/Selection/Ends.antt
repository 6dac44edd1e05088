-- ===== src/Session/Selection/Ends.antt =====
-- RRPG Server/server.cpp: from the first choice of a character to the first turn of the main game.
use mathlib.Core.Path.{subst}
use rrpg.Common.{
  ℕ, true, false, List, [], ◌∷◌, ◌++◌, some, ◌≡◌, refl, sym, ap, ◌∙◌, ◌≢◌, ok, arith, All, ==_iff,
}
use rrpg.RakNet.{RakNet, RakNetLaws, Packet, Effect, send, to}
use rrpg.Protocol.{Player, s_take_turn, gs_main}
use rrpg.StdMap
use rrpg.StdMap.{keys}
use rrpg.StdMap.Order.{Above, IsSorted, has_key, lookup-has_key}
use rrpg.StdMap.Middle.{find_middle, lookup_middle}
use rrpg.Server.{Server, is_running}
use rrpg.Server.Broadcast.Outcome.{said_same}
use rrpg.Server.Invariant.{Inv}
use rrpg.Server.Turn.{alive_count}
use rrpg.Server.Turn.Order.{first_alive, behind, up_to, circle, find-behind}
use rrpg.Server.Turn.Outcome.{next_turn-passed, passed, turn_message}
use rrpg.Server.Dispatch.{run}
use rrpg.Server.Dispatch.Run.{packets_of}
use rrpg.Session.Selection.{assign, last_key, with_class, IsChoice, selection_run}

last_splits :
    (more : List (ℕ × Player)) (id : ℕ) (player : Player)
    → (before : List (ℕ × Player)) × (last : Player) × ((id, player) ∷ more
        ≡ before ++ ((last_key id more, last) ∷ []))
last_splits [] id player = ([], player, refl)
last_splits ((next, q) ∷ more) id player =
    let (before, last, whole) = last_splits more next q in
    ((id, player) ∷ before, last, ap (◌∷◌ (id, player)) whole)

first_alive-up_to-first :
    (k id : ℕ) (player : Player) (more : List (ℕ × Player))
    → player.dead ≡ false
    → first_alive (up_to k ((id, player) ∷ more)) ≡ some (id, player)
unfolding first_alive
first_alive-up_to-first k id player more alive = ground (arith, alive)

-- Behind the last key of the map the circle begins with the first one.
circle-last_key :
    (more : List (ℕ × Player)) (id : ℕ) (player : Player)
    → IsSorted ((id, player) ∷ more)
    → player.dead ≡ false
    → (last : Player) × (StdMap.lookup (last_key id more) ((id, player) ∷ more) ≡ some last)
      × (first_alive (circle (last_key id more) ((id, player) ∷ more)) ≡ some (id, player))
circle-last_key more id player sorted alive =
    let (before, last, whole) = last_splits more id player in
    let k = last_key id more in
    let ordered = subst IsSorted whole sorted in
    let found = ap (StdMap.lookup k) whole ∙ lookup_middle k last before [] ordered in
    let (j, p, stands) = find-behind k ((id, player) ∷ more) last found in
    let ends : (j, p) ∷ behind k ((id, player) ∷ more) ≡ (k, last) ∷ [] =
      sym stands ∙ ap (StdMap.find k) whole ∙ find_middle k last before [] ordered in
    let none_left : behind k ((id, player) ∷ more) ≡ [] = ground arith in
    (
      last,
      found,
      ap (λ xs. first_alive (xs ++ up_to k ((id, player) ∷ more))) none_left
          ∙ first_alive-up_to-first k id player more alive,
    )

module _ (jobs : ℕ → ℕ) where
  assign-Above : (b : ℕ) (m : List (ℕ × Player)) → Above b m → Above b (assign jobs m)
  assign-Above b [] a = tt
  assign-Above b ((k, player) ∷ m) a = (a.0, assign-Above k m a.1)

  assign-IsSorted : (m : List (ℕ × Player)) → IsSorted m → IsSorted (assign jobs m)
  assign-IsSorted [] a = tt
  assign-IsSorted ((k, player) ∷ m) a = assign-Above k m a

  alive_count-assign : (m : List (ℕ × Player)) → alive_count (assign jobs m) ≡ alive_count m
  alive_count-assign [] = refl
  alive_count-assign ((k, player) ∷ m) = ground (arith, alive_count-assign m)

  last_key-assign : (m : List (ℕ × Player)) (id : ℕ) → last_key id (assign jobs m) ≡ last_key id m
  last_key-assign [] id = refl
  last_key-assign ((k, player) ∷ m) id = last_key-assign m k

module _ (net : RakNet) (laws : RakNetLaws net) (packet : ℕ → Packet) (jobs : ℕ → ℕ) where
  -- When every player of the map, in the order of the map and beginning with the one in turn,
  -- chooses a class, the selection ends: no fault stops the server, every player has the class that
  -- the player's own packet named and is ready, the main game has begun, and it is the first
  -- player's turn again, whose address alone is the last to be written to, with `S_TAKE_TURN`. The
  -- server is in a consistent state and runs, the first player is alive, and the number of players
  -- alive is not 1.
  pub selection-ends :
      (s : Server) (id : ℕ) (first : Player) (more : List (ℕ × Player))
      → Inv s
      → is_running s ≡ true
      → s.players ≡ (id, first) ∷ more
      → s.current_player_turn ≡ id
      → first.dead ≡ false
      → alive_count s.players ≢ 1
      → All (λ e. IsChoice net (packet e.0) e.0 (jobs e.0)) s.players
      → (s' : Server) × (address : ℕ) × (before : List Effect) × (run net
            (packets_of packet (keys s.players))
            s
          ≡ ok (tt, s'))
        × (s'.players ≡ assign jobs s.players)
        × (s'.game_state ≡ gs_main)
        × (s'.current_player_turn ≡ id)
        × (StdMap.lookup id s.player_addresses ≡ some address)
        × (s'.out ≡ send (net.to_bytes (net.byte_bits s_take_turn)) (to address) ∷ before)
  selection-ends s id first more inv running whole turn alive several all_choose =
      let sorted = subst IsSorted whole inv.sorted in
      let (out, to_turn) =
        selection_run net laws packet jobs [] more id first s whole turn inv.sorted inv.same_keys
          running (subst (All (λ e. IsChoice net (packet e.0) e.0 (jobs e.0))) whole all_choose) in
      let now = assign jobs ((id, first) ∷ more) in
      let (last, found, next) =
        circle-last_key (assign jobs more) id (with_class (jobs id) first)
          (assign-IsSorted jobs ((id, first) ∷ more) sorted) alive in
      let t : Server = record s {
        players = now;
        current_player_turn = last_key id more;
        game_state = gs_main;
        out = out;
      } in
      let same_last = last_key-assign jobs more id in
      let (address, there) = lookup-has_key id s.player_addresses (
        subst (λ ks. has_key id ks ≡ true) (sym (ap keys whole) ∙ inv.same_keys)
          (ground (arith, (==_iff id id).1 refl))) in
      let turns =
        next_turn-passed net t last (with_class (jobs id) first) id
          (subst (λ k. StdMap.lookup k now ≡ some last) same_last found)
          (assign-IsSorted jobs ((id, first) ∷ more) sorted)
          (subst (λ k. first_alive (circle k now) ≡ some (id, with_class (jobs id) first)) same_last
            next)
          address
          (λ single.
            several
              (ap alive_count whole ∙ sym (alive_count-assign jobs ((id, first) ∷ more)) ∙ single))
          there in
      let quiet =
        said_same (turn_message (with_class (jobs id) first))
          (record t { current_player_turn = id }) in
      (
        passed net id (with_class (jobs id) first) address t,
        address,
        _,
        ap (λ m. run net (packets_of packet (keys m)) s) whole ∙ to_turn ∙ turns,
        ap (λ u. u.players) quiet ∙ ap (assign jobs) (sym whole),
        ap (λ u. u.game_state) quiet,
        ap (λ u. u.current_player_turn) quiet,
        there,
        refl,
      )
